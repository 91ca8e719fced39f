-- ===== src/Node/Network.antt =====
-- `network_config` of apps/uchi-pulse-node/src/bin/uchi-pulse-node.rs. What embassy_net makes of an
-- address and a prefix length is a parameter; `none` is a panic, there and in the `expect`s here.
pub mod Answers
mod Tests
use uchi_pulse.Base.{ℕ, Option, none, some, List, [], ◌∷◌}
use uchi_pulse.Node.Config.{NetworkMode, dhcp, static, PersistedNodeConfig, parse_ipv4}

-- `embassy_net::StaticConfigV4`
pub record StaticConfigV4 (A : Type 0) : Type 0 where
  pub address : A
  pub gateway : List ℕ
  pub dns_servers : List (List ℕ)

-- `embassy_net::Config`, as far as `network_config` makes one.
pub data NetConfig (A : Type 0) : Type 0 where
  dhcpv4 : NetConfig A
  ipv4_static : StaticConfigV4 A → NetConfig A

infixl 5 ◌>>=◌
abbrev ◌>>=◌ : {A B : Type 0} → Option A → (A → Option B) → Option B
none >>= k = none
some a >>= k = k a

unfoldable pub network_config :
    {A : Type 0} → (List ℕ → ℕ → Option A) → PersistedNodeConfig → Option (NetConfig A)
network_config cidr config = elim config.network.mode [
  | dhcp ↦ some dhcpv4
  | static ↦ do
    static_ipv4 ← config.network.static_ipv4
    ip_address ← parse_ipv4 static_ipv4.ip_address
    gateway ← parse_ipv4 static_ipv4.gateway
    dns ← parse_ipv4 static_ipv4.dns
    address ← cidr ip_address static_ipv4.prefix_length
    some (ipv4_static (record { address = address; gateway = gateway; dns_servers = dns ∷ [] }))
]
