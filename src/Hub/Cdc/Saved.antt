-- ===== src/Hub/Cdc/Saved.antt =====
-- What `save_config` leaves in the file, said without its statements.
use uchi_pulse.Base.{◌≡◌, inl, inr, none, ok, err, arith, Result-cases}
use uchi_pulse.Store.Sqlite.{Sqlite, HasSession, SqlError, durable, transaction}
use uchi_pulse.Store.Sqlite.Atomic.{transaction_atomic}
use uchi_pulse.Hub.Cdc.{ParentConfig, validate_config}
use uchi_pulse.Hub.Cdc.Written.{replaced, steps_replace}
use uchi_pulse.Hub.Cdc.Save.{config_steps, ConfigFailure, save_config}

module _ {Conn Failure : Type 0} {sqlite : Sqlite Conn Failure} (session : HasSession sqlite) where
  -- From a connection with no transaction open: if the configuration is saved, it is a valid one, the
  -- transaction is closed, and the tables are those of before with the configuration in place of the
  -- old one; if it is not, the file holds the tables of before.
  pub save_config_result :
      (c : Conn) (config : ParentConfig)
      → (session.view c).saved ≡ none
      → ((save_config sqlite c config).0 ≡ ok tt
          → (validate_config config ≡ ok tt)
            × ((session.view (save_config sqlite c config).1).saved ≡ none)
            × ((session.view (save_config sqlite c config).1).tables
                ≡ replaced config (session.view c).tables))
        × ((e : ConfigFailure Failure)
            → (save_config sqlite c config).0 ≡ err e
            → durable (session.view (save_config sqlite c config).1) ≡ (session.view c).tables)
  unfolding save_config durable
  save_config_result c config closed = elim (Result-cases (validate_config config)) [
    | inr (e, refused) ↦ ground arith
    | inl (_, valid) ↦
        let steps = config_steps {E = SqlError Failure} config in
        let sent = transaction sqlite c steps in
        let atomic = transaction_atomic session c steps closed in
        elim (Result-cases sent.0) [
          | inr (e, failed) ↦ ground (arith, atomic.1 e failed)
          | inl (_, done) ↦
              let made = atomic.0 done in
              let written =
                steps_replace (SqlError Failure) config (session.view c).tables
                  (session.view sent.1).tables made.1 in
              ground arith
        ]
  ]
