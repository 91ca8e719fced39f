-- ===== src/Node/Storage/Manager.antt =====
-- The configuration that a node runs with, over its boots.
use uchi_pulse.Base.{
  ℕ, ◌≤◌, ◌≡◌, ◌≢◌, some, List, [], ◌∷◌, length, ok, err, arith, Result-cases, Option-cases, inl,
  inr,
}
use uchi_pulse.Common.Codec.{Json, IsPlain, IsFaithful, encode, decode}
use uchi_pulse.Node.Config.{StaticIpv4Config, PersistedNodeConfig, validate}
use uchi_pulse.Node.Storage.{
  StorageEnvelope, ConfigStorage, ConfigManager, ConfigManagerError, stored_config, new, set_config,
  factory_reset, config_storage_size, config_storage_format_version,
}

-- What a storage device promises: where the read answers at all, a record that fits is read
-- back after it was written, and nothing is read after a clear.
pub record KeepsRecords {S E : Type 0} (device : ConfigStorage S E) : Type 0 where
  pub reads_back :
      (s : S) (raw found : List ℕ) (size : ℕ)
      → (device.write s raw).0 ≡ ok tt
      → length raw ≤ size
      → (device.read (device.write s raw).1 size).0 ≡ ok found
      → found ≡ raw
  pub reads_nothing :
      (s : S) (found : List ℕ) (size : ℕ)
      → (device.clear s).0 ≡ ok tt
      → (device.read (device.clear s).1 size).0 ≡ ok found
      → found ≡ []

-- The texts of a configuration need no escape in JSON.
pub record IsPlainConfig (c : PersistedNodeConfig) : Type 0 where
  pub device_id : IsPlain c.device_id
  pub ssid : IsPlain c.wifi.ssid
  pub password : IsPlain c.wifi.password
  pub addresses :
      (s : StaticIpv4Config)
      → c.network.static_ipv4 ≡ some s
      → IsPlain s.ip_address × IsPlain s.gateway × IsPlain s.dns

abbrev pub PlainEnvelope : StorageEnvelope → Type 0
PlainEnvelope e = IsPlainConfig e.config

module _ {S E : Type 0} (json : Json StorageEnvelope) (device : ConfigStorage S E) where
  stored_config-validate :
      (raw : List ℕ) (c : PersistedNodeConfig)
      → stored_config json device raw ≡ some c
      → validate c ≡ ok tt
  unfolding stored_config
  stored_config-validate raw c h = elim (Result-cases (decode json raw)) [
    | inr (e, failed) ↦ ground arith
    | inl (envelope, decoded) ↦ elim (Result-cases (validate envelope.config)) [
      | inr (e, failed) ↦ ground arith
      | inl (_, valid) ↦ ground arith
    ]
  ]

  -- The managers that a node has over its boots: `defaults` are the firmware's.
  pub data Running (defaults : PersistedNodeConfig) : ConfigManager S → Type 0 where
    boot : (s : S) → Running defaults (new json device s defaults)
    set :
        (m : ConfigManager S) (c : PersistedNodeConfig)
        → Running defaults m
        → Running defaults (set_config json device m c).1
    reset :
        (m : ConfigManager S)
        → Running defaults m
        → Running defaults (factory_reset json device m).1

  -- Whatever the storage holds or fails at, a node whose defaults are valid runs with a
  -- configuration that `validate` accepts, after any sequence of boots, sets and resets.
  pub Running-validate :
      {defaults : PersistedNodeConfig} {m : ConfigManager S}
      → validate defaults ≡ ok tt
      → Running defaults m
      → validate m.config ≡ ok tt
  unfolding new set_config factory_reset
  Running-validate {defaults} valid (boot s) =
      elim (Result-cases (device.read s config_storage_size).0) [
        | inr (e, failed) ↦ ground arith
        | inl (raw, read) ↦ elim (Option-cases (stored_config json device raw)) [
          | inl absent ↦ ground arith
          | inr (c, found) ↦ ground (arith, stored_config-validate raw c found)
        ]
      ]
  Running-validate valid (set m c before) = let held = Running-validate valid before in ground arith
  Running-validate valid (reset m before) = let held = Running-validate valid before in ground arith

  -- A `set_config` that fails keeps the running configuration, and where the new one is not valid
  -- it keeps the storage too.
  pub set_config-failure :
      (m : ConfigManager S) (c : PersistedNodeConfig) (e : ConfigManagerError E)
      → (set_config json device m c).0 ≡ err e
      → ((set_config json device m c).1.config ≡ m.config)
        × (validate c ≢ ok tt → (set_config json device m c).1 ≡ m)
  unfolding set_config
  set_config-failure m c e h = ground arith

  -- The record that `set_config` makes of a configuration.
  abbrev pub envelope_of : PersistedNodeConfig → StorageEnvelope
  envelope_of c = record { version = config_storage_format_version; config = c }

  stored_config-written :
      (c : PersistedNodeConfig) (raw : List ℕ)
      → IsFaithful json PlainEnvelope
      → IsPlainConfig c
      → ((a : StorageEnvelope) (size : ℕ) → json.to_slice a size ≢ some [])
      → validate c ≡ ok tt
      → json.to_slice (envelope_of c) config_storage_size ≡ some raw
      → stored_config json device raw ≡ some c
  unfolding stored_config decode
  stored_config-written c [] faithful plain visible valid written =
      absurd (visible (envelope_of c) config_storage_size written)
  stored_config-written c (b ∷ bs) faithful plain visible valid written =
      let fits = faithful.fits (envelope_of c) config_storage_size (b ∷ bs) written in
      let reads = faithful.reads (envelope_of c) config_storage_size (b ∷ bs) plain written in
      ground arith

  -- Over a JSON library that reads back what it wrote of texts without escapes and writes no empty
  -- text, and a device that keeps its records: a configuration with such texts that was set is the
  -- one of the next boot, and after a factory reset it is the defaults, where the boot's read of the
  -- device answers.
  pub next_boot :
      (m : ConfigManager S) (c defaults : PersistedNodeConfig) (found : List ℕ)
      → IsFaithful json PlainEnvelope
      → IsPlainConfig c
      → ((a : StorageEnvelope) (size : ℕ) → json.to_slice a size ≢ some [])
      → KeepsRecords device
      → ((set_config json device m c).0 ≡ ok tt
          → (device.read (set_config json device m c).1.storage config_storage_size).0 ≡ ok found
          → (new json device (set_config json device m c).1.storage defaults).config ≡ c)
        × ((factory_reset json device m).0 ≡ ok tt
            → (device.read (factory_reset json device m).1.storage config_storage_size).0 ≡ ok found
            → (new json device (factory_reset json device m).1.storage defaults).config ≡ defaults)
  unfolding new stored_config set_config factory_reset encode
  next_boot m c defaults found faithful plain visible keeps = (
    λ h answers. elim (Result-cases (validate c)) [
      | inr (e, failed) ↦ ground arith
      | inl (_, valid) ↦ elim (Option-cases (json.to_slice (envelope_of c) config_storage_size)) [
        | inl failed ↦ ground arith
        | inr (raw, written) ↦
            let fits = faithful.fits (envelope_of c) config_storage_size raw written in
            let stored = stored_config-written c raw faithful plain visible valid written in
            let back = keeps.reads_back m.storage raw found config_storage_size in
            elim (Result-cases (device.write m.storage raw).0) [
              | inr (e, failed) ↦ ground arith
              | inl (_, wrote) ↦ ground arith
            ]
      ]
    ],
    λ h answers.
        let back = keeps.reads_nothing m.storage found config_storage_size in
        elim (Result-cases (device.clear m.storage).0) [
          | inr (e, failed) ↦ ground arith
          | inl (_, cleared) ↦ ground arith
        ],
  )
