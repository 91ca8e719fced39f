-- ===== src/Store/Tests.antt =====
-- Two insertions whose COMMIT fails, and the transaction after it.
use uchi_pulse.Base.{◌≡◌, ◌≢◌, refl, List, [], ◌∷◌, Result, ok}
use uchi_pulse.Store.Schema.{unique_by, is_consistent}
use uchi_pulse.Store.Sqlite.{
  Change, write, on_tables, begin, commit, durable, SqlError, execute, run_all, transaction,
}
use uchi_pulse.Store.Sqlite.Atomic.{transaction_atomic, open_transaction_blocks}
use uchi_pulse.Store.Sqlite.Faulty.{
  Faulty, works, fails, take_turn, faulty, faulty_session, no_rows, connected,
}
use uchi_pulse.Store.Statements.{add_family, add_device}

abbrev steps : List (Result (SqlError Unit) Change)
steps =
    ok (add_family (record { family_id = 1; display_name = "F"; enabled = 1 }))
    ∷ ok (
        add_device (record {
          device_id = "node";
          name = "N";
          device_type = "FAMILY";
          registered_at = "0";
          updated_at = "0";
          enabled = 1;
        }))
    ∷ []

-- BEGIN and the two insertions work, and COMMIT fails.
abbrev before : Faulty
before = connected no_rows (works ∷ works ∷ works ∷ fails ∷ [])

transaction_atomic_example : durable (transaction faulty before steps).1.session ≡ no_rows
unfolding transaction run_all execute begin commit on_tables write is_consistent unique_by take_turn
transaction_atomic_example =
    (transaction_atomic faulty_session before steps refl).1 (SqlError.failure tt) refl

abbrev after : Faulty
after = (transaction faulty before steps).1

open_transaction_blocks_example : (transaction faulty after []).0 ≢ ok tt
unfolding transaction run_all execute begin commit on_tables write is_consistent unique_by take_turn
open_transaction_blocks_example = (open_transaction_blocks faulty_session after [] no_rows refl).0
