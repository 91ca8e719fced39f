-- ===== src/Node/Flash.antt =====
-- apps/uchi-pulse-node/src/bin/uchi-pulse-node.rs: the configuration in the last sector of the flash.
-- embassy_rp's driver is a parameter: its calls work on that sector, which ends the flash.
pub mod Kept
mod Tests
use uchi_pulse.Base.{
  ℕ, zero, suc, ◌+◌, ◌*◌, ◌/◌, ◌%◌, ◌-◌, Bool, true, false, not, ◌||◌, ◌==◌, ltb, List, [], ◌∷◌,
  ◌++◌, take, length, Result, ok, err, map_err, if◌then◌else◌,
}
use uchi_pulse.Node.Storage.{ConfigStorage, config_storage_size}

abbrev pub config_record_magic : ℕ
config_record_magic = 0x55434647

abbrev pub config_record_header_size : ℕ
config_record_header_size = 8

pub record Flash (F X : Type 0) : Type 0 where
  pub blocking_read : F → ℕ → Result X (List ℕ)
  pub blocking_erase : F → Result X Unit × F
  pub blocking_write : F → List ℕ → Result X Unit × F

pub data FlashStorageError (X : Type 0) : Type 0 where
  flash_error : X → FlashStorageError X
  too_large verify_failed : FlashStorageError X

-- `from_le_bytes`
unfoldable pub le_value : List ℕ → ℕ
le_value [] = 0
le_value (b ∷ bs) = b + 256 * le_value bs

abbrev pub drop : {A : Type 0} → ℕ → List A → List A
drop zero xs = xs
drop (suc n) [] = []
drop (suc n) (x ∷ xs) = drop n xs

abbrev pub same_bytes : List ℕ → List ℕ → Bool
same_bytes [] [] = true
same_bytes (b ∷ bs) (c ∷ cs) = if b == c then same_bytes bs cs else false
same_bytes _ _ = false

-- The first eight bytes of a record: the magic number, the length as a `u16`, and two that are erased.
unfoldable pub header : ℕ → List ℕ
header n = 0x47 ∷ 0x46 ∷ 0x43 ∷ 0x55 ∷ n % 256 ∷ n / 256 % 256 ∷ 0xff ∷ 0xff ∷ []

-- What `read` copies out of the sector.
unfoldable pub record_data : ℕ → List ℕ → List ℕ
record_data size found =
    if ltb config_storage_size config_record_header_size
      || not (le_value (take 4 found) == config_record_magic)
    then []
    else let n = le_value (take 2 (drop 4 found)) in
      if n == 0 || ltb (config_storage_size - config_record_header_size) n || ltb size n
      then []
      else take n (drop config_record_header_size found)

module _ {F X : Type 0} (flash : Flash F X) where
  unfoldable pub read : F → ℕ → Result (FlashStorageError X) (List ℕ) × F
  read f size = elim (flash.blocking_read f config_storage_size) [
    | err e ↦ (err (flash_error e), f)
    | ok found ↦ (ok (record_data size found), f)
  ]

  -- After the write the header is read back and compared.
  unfoldable pub verify : F → List ℕ → Result (FlashStorageError X) Unit
  verify f raw = elim (flash.blocking_read f config_record_header_size) [
    | err e ↦ err (flash_error e)
    | ok found ↦ if same_bytes found (header (length raw)) then ok tt else err verify_failed
  ]

  unfoldable pub write : F → List ℕ → Result (FlashStorageError X) Unit × F
  write f raw =
      if length raw == 0 || ltb (config_storage_size - config_record_header_size) (length raw)
      then (err too_large, f)
      else let (erased, blank) = flash.blocking_erase f in
        elim erased [
          | err e ↦ (err (flash_error e), blank)
          | ok _ ↦
              let (written, after) = flash.blocking_write blank (header (length raw) ++ raw) in
              elim written [
                | err e ↦ (err (flash_error e), after)
                | ok _ ↦ (verify after raw, after)
              ]
        ]

  unfoldable pub clear : F → Result (FlashStorageError X) Unit × F
  clear f = let (erased, after) = flash.blocking_erase f in (map_err flash_error erased, after)

  abbrev pub flash_storage : ConfigStorage F (FlashStorageError X)
  flash_storage = record { read = read; write = write; clear = clear }
