-- ===== src/Node/Discovery/Datagrams.antt =====
-- The datagrams of a node, said without its loop: what they are, where they go, and in what order.
use uchi_pulse.Base.{
  ℕ, ◌+◌, ◌≤◌, ◌≡◌, refl, Option, none, some, List, [], ◌∷◌, ◌++◌, Bool, if◌then◌else◌, String,
}
use uchi_pulse.Common.Message.{UdpMessage}
use uchi_pulse.Common.Codec.{Json}
use uchi_pulse.Node.Discovery.{HelloRequest, is_hello_request, Round}

-- The source of a round's datagram, where it is a hello request.
unfoldable pub asker : {P : Type 0} → Json HelloRequest → Round P → List P
asker requests r = elim r.received [
  | none ↦ []
  | some (payload, source) ↦ if is_hello_request requests payload then source ∷ [] else []
]

unfoldable pub askers : {P : Type 0} → Json HelloRequest → List (Round P) → List P
askers requests [] = []
askers requests (r ∷ rs) = asker requests r ++ askers requests rs

unfoldable pub last_or : {P : Type 0} → Option P → List P → Option P
last_or p [] = p
last_or p (q ∷ qs) = last_or (some q) qs

pub last_or-append :
    {P : Type 0} (p : Option P) (xs ys : List P) → last_or p (xs ++ ys) ≡ last_or (last_or p xs) ys
unfolding last_or
last_or-append p [] ys = refl
last_or-append p (x ∷ xs) ys = last_or-append (some x) xs ys

-- The clock does not go back, and no turn takes longer than `gap`.
abbrev pub Ticks : {P : Type 0} → ℕ → ℕ → List (Round P) → Type 0
Ticks gap before [] = Unit
Ticks gap before (r ∷ rs) = (before ≤ r.now) × (r.now ≤ before + gap) × Ticks gap r.now rs

abbrev pub last_now : {P : Type 0} → ℕ → List (Round P) → ℕ
last_now before [] = before
last_now before (r ∷ rs) = last_now r.now rs

module _ {P : Type 0} (json : Json UdpMessage) where
  -- A message for an endpoint, where it fits 256 bytes.
  abbrev pub datagram : UdpMessage → P → List (P × List ℕ)
  datagram m q = elim (json.to_slice m 256) [ none ↦ [] | some bytes ↦ (q, bytes) ∷ [] ]

  unfoldable pub greetings : String → List P → List (P × List ℕ)
  greetings id [] = []
  greetings id (q ∷ qs) = datagram (UdpMessage.hello id) q ++ greetings id qs

  unfoldable pub heartbeat_to : String → Option P → List (P × List ℕ)
  heartbeat_to id none = []
  heartbeat_to id (some q) = datagram (UdpMessage.heartbeat id) q

  -- A HELLO for each request, and after it, in the rounds that are due, a HEARTBEAT for the hub that
  -- asked last until then.
  unfoldable pub schedule :
      Json HelloRequest → String → Option P → List (Round P) → List Bool → List (P × List ℕ)
  schedule requests id hub (r ∷ rs) (due ∷ dues) =
      let now = last_or hub (asker requests r) in
      let rest = schedule requests id now rs dues in
      (greetings id (asker requests r) ++ (if due then heartbeat_to id now else [])) ++ rest
  schedule requests id hub _ _ = []
