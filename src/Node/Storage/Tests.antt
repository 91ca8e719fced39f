-- ===== src/Node/Storage/Tests.antt =====
-- A storage in memory, and a writer of one configuration.
use uchi_pulse.Base.{
  ℕ, zero, suc, ◌≡◌, ◌≢◌, ◌≤◌, refl, String, str_eq, str_eq_iff, Bool, true, false, ◌&&◌, Option,
  none, some, List, [], ◌∷◌, take, length, ltb, ◌==◌, if◌then◌else◌, arith, ok,
}
use uchi_pulse.Common.Codec.{Json, IsFaithful, encode}
use uchi_pulse.Node.Config.{
  PersistedNodeConfig, NetworkConfig, dhcp, static, validate, check_network, check_inputs,
  check_mappings,
}
use uchi_pulse.Node.Storage.{
  StorageEnvelope, ConfigManager, ConfigStorage, MemoryConfigStorage, MemoryStorageError,
  memory_storage, from_record, new, set_config,
}
use uchi_pulse.Node.Storage.Manager.{
  PlainEnvelope, IsPlainConfig, KeepsRecords, boot, set, Running-validate, next_boot,
}

abbrev plain : String → PersistedNodeConfig
plain id = record {
  device_id = id;
  wifi = record { ssid = "s"; password = "" };
  network = record { mode = dhcp; static_ipv4 = none };
  gpio_inputs = [];
  input_mappings = [];
  double_click_interval_ms = 400;
  long_press_threshold_ms = 1000;
  ack_timeout_ms = 60000;
  event_retry_count = 3;
  heartbeat_interval_sec = 180;
}

abbrev is_nil : {A : Type 0} → List A → Bool
is_nil [] = true
is_nil (x ∷ xs) = false

abbrev is_dhcp : NetworkConfig → Bool
is_dhcp c = elim c.mode [
  | dhcp ↦ elim c.static_ipv4 [ none ↦ true | some _ ↦ false ]
  | static ↦ false
]

abbrev is_plain : PersistedNodeConfig → Bool
is_plain c =
    str_eq c.device_id "n"
    && str_eq c.wifi.ssid "s"
    && str_eq c.wifi.password ""
    && is_dhcp c.network
    && is_nil c.gpio_inputs
    && is_nil c.input_mappings
    && c.double_click_interval_ms == 400
    && c.long_press_threshold_ms == 1000
    && c.ack_timeout_ms == 60000
    && c.event_retry_count == 3
    && c.heartbeat_interval_sec == 180

abbrev write : StorageEnvelope → ℕ → Option (List ℕ)
write e size = if is_plain e.config && e.version == 2 && ltb 0 size then some (1 ∷ []) else none

abbrev read : List ℕ → Option (StorageEnvelope × ℕ)
read [] = none
read (b ∷ bs) = if b == 1 then some (record { version = 2; config = plain "n" }, 1) else none

abbrev json : Json StorageEnvelope
json = record { to_slice = write; from_slice = read }

write_fits :
    (e : StorageEnvelope) (size : ℕ) (out : List ℕ) → write e size ≡ some out → length out ≤ size
write_fits e size out h = ground arith

is_plain_lem : (c : PersistedNodeConfig) → is_plain c ≡ true → c ≡ plain "n"
is_plain_lem c h =
    ground
      (arith, str_eq_iff c.device_id "n", str_eq_iff c.wifi.ssid "s", str_eq_iff c.wifi.password "")

read-write :
    (e : StorageEnvelope) (size : ℕ) (out : List ℕ)
    → write e size ≡ some out
    → read out ≡ some (e, length out)
read-write e size out h = ground (arith, is_plain_lem e.config)

json-IsFaithful : IsFaithful json PlainEnvelope
json-IsFaithful = record { fits = write_fits; reads = λ e size out plain. read-write e size out }

plain-IsPlainConfig : IsPlainConfig (plain "n")
plain-IsPlainConfig = record {
  device_id = ground arith;
  ssid = ground arith;
  password = tt;
  addresses = λ s h. ground arith;
}

json_visible : (e : StorageEnvelope) (size : ℕ) → json.to_slice e size ≢ some []
json_visible e size h = ground arith

abbrev device : ConfigStorage MemoryConfigStorage MemoryStorageError
device = memory_storage 4096

take-length : (size : ℕ) (raw : List ℕ) → length raw ≤ size → take size raw ≡ raw
take-length zero [] h = refl
take-length zero (b ∷ bs) h = absurd (omega arith)
take-length (suc size) [] h = refl
take-length (suc size) (b ∷ bs) h = ground (arith, take-length size bs)

memory_reads_back :
    (s : MemoryConfigStorage) (raw found : List ℕ) (size : ℕ)
    → (device.write s raw).0 ≡ ok tt
    → length raw ≤ size
    → (device.read (device.write s raw).1 size).0 ≡ ok found
    → found ≡ raw
memory_reads_back s raw found size h fits answers = ground (arith, take-length size raw)

memory_reads_nothing :
    (s : MemoryConfigStorage) (found : List ℕ) (size : ℕ)
    → (device.clear s).0 ≡ ok tt
    → (device.read (device.clear s).1 size).0 ≡ ok found
    → found ≡ []
memory_reads_nothing s found size h answers = ground (arith, take-length size [])

memory-KeepsRecords : KeepsRecords device
memory-KeepsRecords = record {
  reads_back = memory_reads_back;
  reads_nothing = memory_reads_nothing;
}

abbrev manager : ConfigManager MemoryConfigStorage
manager = record { storage = from_record 4096 []; config = plain "default" }

abbrev after_boot : ConfigManager MemoryConfigStorage
after_boot = new json device (from_record 4096 []) (plain "default")

next_boot_example :
    (new json device
      (set_config json device manager (plain "n")).1.storage
      (plain "default")).config
    ≡ plain "n"
unfolding set_config validate check_network check_inputs check_mappings encode
next_boot_example =
    (next_boot json device manager (plain "n") (plain "default") (1 ∷ []) json-IsFaithful
        plain-IsPlainConfig json_visible memory-KeepsRecords).0
      refl refl

Running-validate_example : validate (set_config json device after_boot (plain "n")).1.config ≡ ok tt
unfolding validate check_network check_inputs check_mappings
Running-validate_example =
    Running-validate json device {defaults = plain "default"} refl
      (set _ (plain "n") (boot (from_record 4096 [])))
