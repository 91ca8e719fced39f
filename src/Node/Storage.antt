-- ===== src/Node/Storage.antt =====
-- apps/uchi-pulse-node/src/storage.rs: the stored configuration of a node. The device is the trait
-- `ConfigStorage`; `read` returns the part of its buffer that it filled.
pub mod Manager
mod Tests
use uchi_pulse.Base.{
  ℕ, Bool, true, false, ◌&&◌, Option, none, some, List, [], ◌∷◌, length, ltb, leb, ◌==◌,
  if◌then◌else◌, Result, ok, err, take, String,
}
use uchi_pulse.Common.Codec.{CodecError, Json, encode, decode}
use uchi_pulse.Node.Config.{PersistedNodeConfig, ConfigValidationError, validate}

abbrev pub config_storage_format_version : ℕ
config_storage_format_version = 2

abbrev pub config_storage_size : ℕ
config_storage_size = 4096

pub record StorageEnvelope : Type 0 where
  pub version : ℕ
  pub config : PersistedNodeConfig

-- The storage after a call stands beside what the call returns.
pub record ConfigStorage (S E : Type 0) : Type 0 where
  pub read : S → ℕ → Result E (List ℕ) × S
  pub write : S → List ℕ → Result E Unit × S
  pub clear : S → Result E Unit × S

pub data ConfigManagerError (E : Type 0) : Type 0 where
  invalid_config : ConfigValidationError → ConfigManagerError E
  storage_error : E → ConfigManagerError E
  serialization : CodecError → ConfigManagerError E

pub record ConfigManager (S : Type 0) : Type 0 where
  pub storage : S
  pub config : PersistedNodeConfig

module _ {S E : Type 0} (json : Json StorageEnvelope) (device : ConfigStorage S E) where
  -- The configuration in the bytes that were read, if it may be used.
  unfoldable pub stored_config : List ℕ → Option PersistedNodeConfig
  stored_config raw =
      if ltb 0 (length raw) && leb (length raw) config_storage_size
      then elim (decode json raw) [
        | err _ ↦ none
        | ok envelope ↦
            if envelope.version == config_storage_format_version
            then elim (validate envelope.config) [ ok _ ↦ some envelope.config | err _ ↦ none ]
            else none
      ]
      else none

  unfoldable pub new : S → PersistedNodeConfig → ConfigManager S
  unfolding stored_config
  new s defaults =
      let (result, after) = device.read s config_storage_size in
      record {
        storage = after;
        config = elim result [
          | err _ ↦ defaults
          | ok raw ↦ elim (stored_config raw) [ none ↦ defaults | some config ↦ config ]
        ];
      }

  -- The manager after the call stands beside what the call returns.
  unfoldable pub set_config :
      ConfigManager S → PersistedNodeConfig → Result (ConfigManagerError E) Unit × ConfigManager S
  set_config m config = elim (validate config) [
    | err e ↦ (err (invalid_config e), m)
    | ok _ ↦
        let envelope : StorageEnvelope = record {
          version = config_storage_format_version;
          config = config;
        } in
        elim (encode json envelope config_storage_size) [
          | err e ↦ (err (serialization e), m)
          | ok raw ↦
              let (result, after) = device.write m.storage raw in
              elim result [
                | err e ↦ (err (storage_error e), record m { storage = after })
                | ok _ ↦ (ok tt, record { storage = after; config = config })
              ]
        ]
  ]

  unfoldable pub factory_reset :
      ConfigManager S → Result (ConfigManagerError E) Unit × ConfigManager S
  factory_reset m =
      let (result, after) = device.clear m.storage in
      elim result [
        | err e ↦ (err (storage_error e), record m { storage = after })
        | ok _ ↦ (ok tt, record m { storage = after })
      ]

pub data MemoryStorageError : Type 0 where
  read write clear : MemoryStorageError

-- `MemoryConfigStorage<N>`: the bytes up to `len`; what lies behind them is never read.
pub record MemoryConfigStorage : Type 0 where
  pub bytes : List ℕ
  pub fail_read : Bool
  pub fail_write : Bool
  pub fail_clear : Bool

-- `MemoryConfigStorage::from_record`
abbrev pub from_record : ℕ → List ℕ → MemoryConfigStorage
from_record n bytes = record {
  bytes = take n bytes;
  fail_read = false;
  fail_write = false;
  fail_clear = false;
}

abbrev pub memory_storage : ℕ → ConfigStorage MemoryConfigStorage MemoryStorageError
memory_storage n = record {
  read = λ s size.
      if s.fail_read
      then (err MemoryStorageError.read, record s { fail_read = false })
      else (ok (take size s.bytes), s);
  write = λ s raw.
      if s.fail_write
      then (err MemoryStorageError.write, record s { fail_write = false })
      else if ltb n (length raw)
      then (err MemoryStorageError.write, s)
      else (ok tt, record s { bytes = raw });
  clear = λ s.
      if s.fail_clear
      then (err MemoryStorageError.clear, record s { fail_clear = false })
      else (ok tt, record s { bytes = [] });
}
