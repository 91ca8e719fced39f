-- ===== src/Node/Discovery/Beats.antt =====
-- What a node sends on its own: an answer to each request, and beats at its interval.
use uchi_pulse.Base.{
  ℕ, ◌+◌, ◌*◌, ◌≤◌, ◌<◌, ◌≡◌, Option, List, ◌∷◌, ◌++◌, length, append-nil, count_if, append-nil,
  Bool,
}
use uchi_pulse.Common.Message.{UdpMessage}
use uchi_pulse.Common.Codec.{Json}
use uchi_pulse.Node.Udp.{NodeUdpProtocol}
use uchi_pulse.Node.Discovery.{HelloRequest, Round, Task, turns}
use uchi_pulse.Node.Discovery.Datagrams.{asker, askers, last_or, last_now, schedule}

module _ {P : Type 0} (requests : Json HelloRequest) (json : Json UdpMessage)
    (protocol : NodeUdpProtocol) where
  abbrev hub_after : Task P → Round P → Option P
  hub_after t r = last_or t.hub_endpoint (asker requests r)

  -- What a run sends, by the rounds in which a beat was due.
  pub record Beats (gap before interval : ℕ) (t : Task P) (rs : List (Round P)) (end : Task P)
      (sent : List (P × List ℕ)) : Type 0 where
    pub dues : List Bool
    pub every_round : length dues ≡ length rs
    pub sent_as : sent ≡ schedule json requests protocol.device_id t.hub_endpoint rs dues
    pub hub : end.hub_endpoint ≡ last_or t.hub_endpoint (askers requests rs)
    pub not_often :
        t.last_heartbeat + count_if (λ due. due) dues * (interval * 1000) ≤ end.last_heartbeat
    pub not_seldom :
        last_now before rs
        < t.last_heartbeat + count_if (λ due. due) dues * (interval * 1000 + gap) + interval * 1000

  abbrev AfterTurn :
      (gap before interval : ℕ) (t : Task P) (r : Round P) (rs : List (Round P))
      → Task P × List (P × List ℕ)
      → Type 0
  AfterTurn gap before interval t r rs made =
      let (end, more) = turns requests json protocol interval made.0 rs in
      Beats gap before interval t (r ∷ rs) end (made.1 ++ more)
