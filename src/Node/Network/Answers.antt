-- ===== src/Node/Network/Answers.antt =====
-- The firmware's network settings come from a configuration that was validated.
use uchi_pulse.Base.{
  ℕ, ◌≤◌, ◌≡◌, ◌≢◌, refl, ◌⊎◌, inl, inr, Option, none, some, List, [], ◌∷◌, ok, arith, Option-cases,
  is_some, true,
}
use uchi_pulse.Node.Config.{
  NetworkMode, dhcp, static, StaticIpv4Config, PersistedNodeConfig, validate, parse_ipv4,
}
use uchi_pulse.Node.Config.Valid.{validate_iff}
use uchi_pulse.Node.Network.{NetConfig, dhcpv4, ipv4_static, network_config}

-- The settings that a configuration asks for: DHCP, or its own addresses in bytes.
pub data AsksFor {A : Type 0} (cidr : List ℕ → ℕ → Option A) (c : PersistedNodeConfig)
    : NetConfig A → Type 0 where
  asks_dhcp : c.network.mode ≡ dhcp → AsksFor cidr c dhcpv4
  asks_static :
      (s : StaticIpv4Config) (ip gateway dns : List ℕ) (address : A)
      → c.network.mode ≡ static
      → c.network.static_ipv4 ≡ some s
      → parse_ipv4 s.ip_address ≡ some ip
      → parse_ipv4 s.gateway ≡ some gateway
      → parse_ipv4 s.dns ≡ some dns
      → cidr ip s.prefix_length ≡ some address
      → AsksFor cidr c
          (ipv4_static (record { address = address; gateway = gateway; dns_servers = dns ∷ [] }))

mode-cases : (m : NetworkMode) → (m ≡ dhcp) ⊎ (m ≡ static)
mode-cases dhcp = inl refl
mode-cases static = inr refl

is_some-some : {B : Type 0} (o : Option B) → is_some o ≡ true → (b : B) × (o ≡ some b)
is_some-some none h = ground arith
is_some-some (some b) h = (b, refl)

-- With a configuration that validate accepts, no `expect` of network_config fails: it returns the
-- settings that the configuration asks for, where a prefix of at most 32 bits makes an address.
pub network_config_result :
    {A : Type 0} (cidr : List ℕ → ℕ → Option A) (c : PersistedNodeConfig)
    → ((ip : List ℕ) (n : ℕ) → n ≤ 32 → cidr ip n ≢ none)
    → validate c ≡ ok tt
    → (n : NetConfig A) × (network_config cidr c ≡ some n) × AsksFor cidr c n
unfolding network_config
network_config_result cidr c makes valid = elim (mode-cases c.network.mode) [
  | inl is_dhcp ↦ (dhcpv4, ground arith, asks_dhcp is_dhcp)
  | inr is_static ↦
      let (s, set, prefix, has_ip, has_gateway, has_dns) =
        ((validate_iff c).0 valid).network is_static in
      let (ip, got_ip) = is_some-some (parse_ipv4 s.ip_address) has_ip in
      let (gateway, got_gateway) = is_some-some (parse_ipv4 s.gateway) has_gateway in
      let (dns, got_dns) = is_some-some (parse_ipv4 s.dns) has_dns in
      elim (Option-cases (cidr ip s.prefix_length)) [
        | inl failed ↦ ground (arith, makes ip s.prefix_length prefix)
        | inr (address, made) ↦ (
          ipv4_static (record { address = address; gateway = gateway; dns_servers = dns ∷ [] }),
          ground arith,
          asks_static s ip gateway dns address is_static set got_ip got_gateway got_dns made,
        )
      ]
]
