-- ===== src/Hub/Cdc/Handled.antt =====
-- What a line of the management protocol may do to the file, and how it is answered.
use uchi_pulse.Base.{
  ℕ, ◌≡◌, inl, inr, String, str_eq, none, Result, ok, arith, Result-cases, subst, sym, if_each,
  ◌||◌, ◌==◌,
}
use uchi_pulse.Common.Cdc.{CdcRequest, ok_status, CdcResponse, cdc_protocol_version}
use uchi_pulse.Store.Tables.{Tables}
use uchi_pulse.Store.Sqlite.{Sqlite, HasSession, durable}
use uchi_pulse.Hub.Database.Values.{DatabaseError}
use uchi_pulse.Hub.Cdc.{ParentConfig, validate_config}
use uchi_pulse.Hub.Cdc.Save.{default_config, save_config}
use uchi_pulse.Hub.Cdc.Written.{replaced}
use uchi_pulse.Hub.Cdc.Saved.{save_config_result}
use uchi_pulse.Hub.Cdc.Handler.{
  HubReply, HubJson, set_config, factory_reset, run_command, answer_line, handle_line,
}

-- The file holds the tables of before, or an answered configuration has taken the old one's place.
pub data Kept {D : Type 0} (response : CdcResponse D) (before after : Tables) : Type 0 where
  untouched : after ≡ before → Kept response before after
  taken_over :
      (config : ParentConfig)
      → response.status ≡ ok_status
      → validate_config config ≡ ok tt
      → after ≡ replaced config before
      → Kept response before after

module _ {Value Failure Conn : Type 0} (json : HubJson Value Failure) {sqlite : Sqlite Conn Failure}
    (schema_version : Conn → Result (DatabaseError Failure) ℕ) (session : HasSession sqlite) where
  abbrev Keeps : Conn → CdcResponse HubReply × Conn → Type 0
  Keeps c r = Kept r.0 (session.view c).tables (durable (session.view r.1))

  set_config-Keeps :
      (c : Conn) (request : CdcRequest Value)
      → (session.view c).saved ≡ none
      → Keeps c (set_config json sqlite schema_version c request)
  unfolding set_config durable
  set_config-Keeps c request closed = elim (Result-cases (json.read_config request.params)) [
    | inr (e, failed) ↦ untouched (ground arith)
    | inl (config, found) ↦
        let result = save_config_result session c config closed in
        elim (Result-cases (save_config sqlite c config).0) [
          | inr (e, failed) ↦ untouched (ground (arith, result.1 e failed))
          | inl (_, done) ↦
              let saved = result.0 done in taken_over config (ground arith) saved.0 (ground arith)
        ]
  ]

  factory_reset-Keeps :
      (c : Conn) (request : CdcRequest Value)
      → (session.view c).saved ≡ none
      → Keeps c (factory_reset json sqlite schema_version c request)
  unfolding factory_reset durable
  factory_reset-Keeps c request closed =
      let result = save_config_result session c default_config closed in
      elim (Result-cases (save_config sqlite c default_config).0) [
        | inr (e, failed) ↦ untouched (ground (arith, result.1 e failed))
        | inl (_, done) ↦
            let saved = result.0 done in
            taken_over default_config (ground arith) saved.0 (ground arith)
      ]

  unchanged :
      (c : Conn) (response : CdcResponse HubReply)
      → (session.view c).saved ≡ none
      → Keeps c (response, c)
  unfolding durable
  unchanged c response closed = untouched (ground arith)

  run_command-Keeps :
      (c : Conn) (request : CdcRequest Value)
      → (session.view c).saved ≡ none
      → Keeps c (run_command json sqlite schema_version c request)
  unfolding run_command
  run_command-Keeps c request closed =
      let same = λ (response : CdcResponse HubReply). unchanged c response closed in
      let named = λ (command : String). str_eq request.command command in
      if_each (Keeps c) (named "get_info") (same _) (
        if_each (Keeps c) (named "get_config") (same _) (
          if_each (Keeps c) (named "set_config") (set_config-Keeps c request closed) (
            if_each (Keeps c) (named "factory_reset") (factory_reset-Keeps c request closed) (
              if_each (Keeps c) (named "get_status") (same _) (
                if_each (Keeps c) (named "reboot") (same _) (
                  if_each (Keeps c) (named "get_inputs" || named "get_outputs") (same _)
                    (same _)))))))

  -- Whatever the line says and whichever calls of the database fail: the file holds the tables of
  -- before, or the answer is `ok` and a valid configuration has taken the place of the old one.
  pub handle_line-Kept :
      (c : Conn) (line : String)
      → (session.view c).saved ≡ none
      → Kept
          (handle_line json sqlite schema_version c line).0
          (session.view c).tables
          (durable (session.view (handle_line json sqlite schema_version c line).1))
  unfolding handle_line
  handle_line-Kept c line closed = elim (Result-cases (json.read_request line)) [
    | inr (e, failed) ↦
        subst (λ r. Keeps c (answer_line json sqlite schema_version c r)) (sym failed)
          (unchanged c _ closed)
    | inl (request, read) ↦
        subst (λ r. Keeps c (answer_line json sqlite schema_version c r)) (sym read)
          (if_each (Keeps c) (request.version == cdc_protocol_version)
            (run_command-Keeps c request closed) (unchanged c _ closed))
  ]
