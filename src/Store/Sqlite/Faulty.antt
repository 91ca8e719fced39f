-- ===== src/Store/Sqlite/Faulty.antt =====
-- A connection in memory whose calls can be told to fail, one answer for each. The witnesses run on it.
use uchi_pulse.Base.{ℕ, ◌≡◌, ◌⊎◌, refl, none, some, List, [], ◌∷◌, Result, ok, err, arith}
use uchi_pulse.Store.Tables.{Tables}
use uchi_pulse.Store.Sqlite.{Session, Statement, rolled_back, Sqlite, HasSession}

-- What a call answers when its turn comes; a call that finds no answer left is carried out.
pub data Turn : Type 0 where
  works fails ends_transaction : Turn

pub record Faulty : Type 0 where
  pub session : Session
  pub turns : List Turn

abbrev pub on_session : Statement → Session → List Turn → Result Unit ℕ × Faulty
on_session s now rest = elim (s now) [
  | none ↦ (err tt, record { session = now; turns = rest })
  | some (n, after) ↦ (ok n, record { session = after; turns = rest })
]

unfoldable pub take_turn : Faulty → Statement → Result Unit ℕ × Faulty
take_turn c s = elim c.turns [
  | [] ↦ on_session s c.session []
  | works ∷ rest ↦ on_session s c.session rest
  | fails ∷ rest ↦ (err tt, record c { turns = rest })
  | ends_transaction ∷ rest ↦ (err tt, record { session = rolled_back c.session; turns = rest })
]

abbrev pub faulty : Sqlite Faulty Unit
faulty = record {
  execute = take_turn;
  read = λ c. elim c.turns [ fails ∷ rest ↦ err tt | _ ↦ ok c.session.tables ];
  last_insert_rowid = λ c. c.session.last_rowid;
}

pub faulty_done :
    (c : Faulty) (s : Statement) (n : ℕ)
    → (take_turn c s).0 ≡ ok n
    → s c.session ≡ some (n, (take_turn c s).1.session)
unfolding take_turn
faulty_done c s n h = ground arith

pub faulty_undone :
    (c : Faulty) (s : Statement) (e : Unit)
    → (take_turn c s).0 ≡ err e
    → ((take_turn c s).1.session ≡ c.session) ⊎ ((take_turn c s).1.session ≡ rolled_back c.session)
unfolding take_turn
faulty_undone c s e h = ground arith

pub faulty_seen : (c : Faulty) (t : Tables) → faulty.read c ≡ ok t → t ≡ c.session.tables
faulty_seen c t h = ground arith

abbrev pub faulty_session : HasSession faulty
faulty_session = record {
  view = λ c. c.session;
  done = faulty_done;
  undone = faulty_undone;
  rowid = λ c. refl;
  seen = faulty_seen;
}

-- A new file, and a connection to it that is to answer its first calls in the given way.
abbrev pub no_rows : Tables
no_rows = record {
  devices = [];
  families = [];
  actions = [];
  changes = [];
  settings = [];
  targets = [];
  destinations = [];
  events = [];
  next_destination = 1;
  next_event = 1;
}

abbrev pub connected : Tables → List Turn → Faulty
connected t turns = record {
  session = record { tables = t; saved = none; last_rowid = 0 };
  turns = turns;
}
