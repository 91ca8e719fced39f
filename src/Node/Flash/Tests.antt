-- ===== src/Node/Flash/Tests.antt =====
-- A sector that is kept as the bytes from its start, the rest of it erased.
use uchi_pulse.Base.{ℕ, zero, suc, ◌≡◌, refl, ap, List, [], ◌∷◌, ◌++◌, take, length, ok, arith}
use uchi_pulse.Node.Flash.{Flash, header, read, write, record_data, le_value}
use uchi_pulse.Node.Flash.Kept.{HoldsBytes, erased_bytes, write_read}

abbrev padded : ℕ → List ℕ → List ℕ
padded zero _ = []
padded (suc n) [] = 0xff ∷ padded n []
padded (suc n) (b ∷ bs) = b ∷ padded n bs

abbrev sector : Flash (List ℕ) Unit
sector = record {
  blocking_read = λ s n. ok (padded n s);
  blocking_erase = λ s. (ok tt, []);
  blocking_write = λ s bytes. (ok tt, bytes ++ s);
}

length-padded : (n : ℕ) (s : List ℕ) → length (padded n s) ≡ n
length-padded zero s = refl
length-padded (suc n) [] = ground (arith, length-padded n [])
length-padded (suc n) (b ∷ bs) = ground (arith, length-padded n bs)

padded_erased : (n : ℕ) → padded n [] ≡ erased_bytes n
padded_erased zero = refl
padded_erased (suc n) = ap (λ bs. 0xff ∷ bs) (padded_erased n)

take-padded : (bytes : List ℕ) (n : ℕ) → take (length bytes) (padded n (bytes ++ [])) ≡ take n bytes
take-padded [] zero = refl
take-padded [] (suc n) = refl
take-padded (b ∷ bs) zero = refl
take-padded (b ∷ bs) (suc n) = ap (λ cs. b ∷ cs) (take-padded bs n)

sector-HoldsBytes : HoldsBytes sector
sector-HoldsBytes = record {
  holds_length = λ s found n got. ground (arith, length-padded n s);
  holds_written = λ s bytes found n blank done got. ground (arith, take-padded bytes n);
  holds_erased = λ s found n blank got. ground (arith, padded_erased n);
}

-- The whole sector behind a record of three bytes.
abbrev three_bytes : List ℕ
three_bytes = 9 ∷ 8 ∷ 7 ∷ []

short_read : (read sector [] 10).0 ≡ ok []
unfolding read record_data le_value
short_read = refl

write_read_example :
    (write sector [] three_bytes ≡ (ok tt, header 3 ++ three_bytes))
    × (read sector (header 3 ++ three_bytes) 100 ≡ (ok three_bytes, header 3 ++ three_bytes))
unfolding header
write_read_example =
    write_read sector sector-HoldsBytes [] (header 3 ++ three_bytes) three_bytes (header 3)
      (padded 4096 (header 3 ++ three_bytes)) 100 (ground arith) (ground arith) (ground arith) refl
      refl refl refl
