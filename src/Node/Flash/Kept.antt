-- ===== src/Node/Flash/Kept.antt =====
-- The flash keeps what the node's storage promises.
use uchi_pulse.Base.{
  ℕ, zero, suc, ◌+◌, ◌*◌, ◌/◌, ◌%◌, ◌≤◌, ◌≡◌, ◌≢◌, ◌∙◌, refl, sym, ap, subst, inl, inr, true, List,
  [], ◌∷◌, ◌++◌, take, length, ok, arith, Result-cases,
}
use uchi_pulse.Node.Storage.Manager.{KeepsRecords}
use uchi_pulse.Node.Flash.{
  Flash, le_value, drop, header, record_data, read, same_bytes, verify, write, clear, flash_storage,
  config_record_magic,
}

abbrev pub erased_bytes : ℕ → List ℕ
erased_bytes zero = []
erased_bytes (suc n) = 0xff ∷ erased_bytes n

-- What the driver promises: a read that answers fills its buffer, a sector that was erased and then written begins with what was written,
-- and one that was erased alone is full of 0xff, wherever the read that follows answers.
pub record HoldsBytes {F X : Type 0} (flash : Flash F X) : Type 0 where
  pub holds_length :
      (f : F) (found : List ℕ) (n : ℕ) → flash.blocking_read f n ≡ ok found → length found ≡ n
  pub holds_written :
      (f : F) (bytes found : List ℕ) (n : ℕ)
      → (flash.blocking_erase f).0 ≡ ok tt
      → (flash.blocking_write (flash.blocking_erase f).1 bytes).0 ≡ ok tt
      → flash.blocking_read (flash.blocking_write (flash.blocking_erase f).1 bytes).1 n ≡ ok found
      → take (length bytes) found ≡ take n bytes
  pub holds_erased :
      (f : F) (found : List ℕ) (n : ℕ)
      → (flash.blocking_erase f).0 ≡ ok tt
      → flash.blocking_read (flash.blocking_erase f).1 n ≡ ok found
      → found ≡ erased_bytes n

prefix_split :
    (xs found : List ℕ) → take (length xs) found ≡ xs → found ≡ xs ++ drop (length xs) found
prefix_split [] found h = refl
prefix_split (x ∷ xs) [] h = ground arith
prefix_split (x ∷ xs) (y ∷ ys) h = ground (arith, prefix_split xs ys)

take-append : (xs ys : List ℕ) → take (length xs) (xs ++ ys) ≡ xs
take-append [] ys = refl
take-append (x ∷ xs) ys = ap (λ zs. x ∷ zs) (take-append xs ys)

take-all : (n : ℕ) (xs : List ℕ) → length xs ≤ n → take n xs ≡ xs
take-all zero [] h = refl
take-all zero (x ∷ xs) h = ground arith
take-all (suc n) [] h = refl
take-all (suc n) (x ∷ xs) h = ground (arith, take-all n xs)

same_bytes_self : (xs : List ℕ) → same_bytes xs xs ≡ true
same_bytes_self [] = refl
same_bytes_self (x ∷ xs) = ground (arith, same_bytes_self xs)

-- The data of a record is found again behind its header.
record_data-header :
    (size : ℕ) (raw rest : List ℕ)
    → length raw ≢ 0
    → length raw ≤ 4088
    → length raw ≤ size
    → record_data size ((header (length raw) ++ raw) ++ rest) ≡ raw
unfolding record_data header le_value
record_data-header size raw rest some_bytes fits room =
    let n = length raw in
    let written : n % 256 + 256 * (n / 256 % 256 + 256 * 0) ≡ n = omega arith in
    ground (arith, written, take-append raw rest)

length-header_append : (raw : List ℕ) → length (header (length raw) ++ raw) ≡ 8 + length raw
unfolding header
length-header_append raw = omega arith

erased_magic : (n : ℕ) → le_value (take 4 (erased_bytes n)) ≢ config_record_magic
unfolding le_value
erased_magic zero = ground arith
erased_magic (suc zero) = ground arith
erased_magic (suc (suc zero)) = ground arith
erased_magic (suc (suc (suc zero))) = ground arith
erased_magic (suc (suc (suc (suc n)))) = ground arith

record_data-erased : (size n : ℕ) → record_data size (erased_bytes n) ≡ []
unfolding record_data
record_data-erased size n = ground (arith, erased_magic n)

module _ {F X : Type 0} (flash : Flash F X) where
  -- What was done when a write succeeds.
  write_steps :
      (f : F) (raw : List ℕ)
      → (write flash f raw).0 ≡ ok tt
      → ((length raw ≢ 0) × (length raw ≤ 4088))
        × ((flash.blocking_erase f).0 ≡ ok tt)
        × ((flash.blocking_write (flash.blocking_erase f).1 (header (length raw) ++ raw)).0 ≡ ok tt)
        × ((write flash f raw).1
            ≡ (flash.blocking_write (flash.blocking_erase f).1 (header (length raw) ++ raw)).1)
  unfolding write
  write_steps f raw h = elim (Result-cases (flash.blocking_erase f).0) [
    | inr (e, failed) ↦ ground arith
    | inl (_, blank) ↦
        elim (Result-cases
          (flash.blocking_write (flash.blocking_erase f).1 (header (length raw) ++ raw)).0) [
            | inr (e, failed) ↦ ground arith
            | inl (_, done) ↦ ground arith
          ]
  ]

  read_data :
      (f : F) (found : List ℕ) (size : ℕ)
      → (read flash f size).0 ≡ ok found
      → (all : List ℕ) × (flash.blocking_read f 4096 ≡ ok all) × (found ≡ record_data size all)
  unfolding read
  read_data f found size answers = elim (Result-cases (flash.blocking_read f 4096)) [
    | inr (e, failed) ↦ ground arith
    | inl (all, got) ↦ (all, got, ground arith)
  ]

  verify-header :
      (f : F) (raw : List ℕ)
      → flash.blocking_read f 8 ≡ ok (header (length raw))
      → verify flash f raw ≡ ok tt
  unfolding verify
  verify-header f raw got = ground (arith, same_bytes_self (header (length raw)))

  write-verified :
      (f after : F) (raw : List ℕ)
      → length raw ≢ 0
      → length raw ≤ 4088
      → (flash.blocking_erase f).0 ≡ ok tt
      → flash.blocking_write (flash.blocking_erase f).1 (header (length raw) ++ raw)
        ≡ (ok tt, after)
      → verify flash after raw ≡ ok tt
      → write flash f raw ≡ (ok tt, after)
  unfolding write
  write-verified f after raw some_bytes fits blank done same = ground arith

  read-answered :
      (f : F) (all : List ℕ) (size : ℕ)
      → flash.blocking_read f 4096 ≡ ok all
      → read flash f size ≡ (ok (record_data size all), f)
  unfolding read
  read-answered f all size got = ground arith

  module _ (holds : HoldsBytes flash) where
    written_data :
        (f : F) (raw all : List ℕ) (size : ℕ)
        → length raw ≢ 0
        → length raw ≤ 4088
        → length raw ≤ size
        → (flash.blocking_erase f).0 ≡ ok tt
        → (flash.blocking_write (flash.blocking_erase f).1 (header (length raw) ++ raw)).0 ≡ ok tt
        → flash.blocking_read
            (flash.blocking_write (flash.blocking_erase f).1 (header (length raw) ++ raw)).1
            4096
          ≡ ok all
        → record_data size all ≡ raw
    written_data f raw all size some_bytes fits room blank done got =
        let record_bytes = header (length raw) ++ raw in
        let short : length record_bytes ≤ 4096 = ground (arith, length-header_append raw) in
        let begins =
          holds.holds_written f record_bytes all 4096 blank done got
          ∙ take-all 4096 record_bytes short in
        ap (record_data size) (prefix_split record_bytes all begins)
        ∙ record_data-header size raw (drop (length record_bytes) all) some_bytes fits room

    written_reads_back :
        (f : F) (raw found : List ℕ) (size : ℕ)
        → (write flash f raw).0 ≡ ok tt
        → length raw ≤ size
        → (read flash (write flash f raw).1 size).0 ≡ ok found
        → found ≡ raw
    written_reads_back f raw found size h room answers =
        let ((some_bytes, fits), blank, done, after_write) = write_steps f raw h in
        let (all, got, is_data) = read_data (write flash f raw).1 found size answers in
        let got_after = subst (λ g. flash.blocking_read g 4096 ≡ ok all) after_write got in
        is_data ∙ written_data f raw all size some_bytes fits room blank done got_after

    cleared_reads_nothing :
        (f : F) (found : List ℕ) (size : ℕ)
        → (clear flash f).0 ≡ ok tt
        → (read flash (clear flash f).1 size).0 ≡ ok found
        → found ≡ []
    unfolding clear
    cleared_reads_nothing f found size h answers =
        let (all, got, is_data) = read_data (clear flash f).1 found size answers in
        elim (Result-cases (flash.blocking_erase f).0) [
          | inr (e, failed) ↦ ground arith
          | inl (_, blank) ↦
              let all_erased = holds.holds_erased f all 4096 blank got in
              is_data ∙ ap (record_data size) all_erased ∙ record_data-erased size 4096
        ]

    header_read_back :
        (f : F) (raw found : List ℕ)
        → (flash.blocking_erase f).0 ≡ ok tt
        → (flash.blocking_write (flash.blocking_erase f).1 (header (length raw) ++ raw)).0 ≡ ok tt
        → flash.blocking_read
            (flash.blocking_write (flash.blocking_erase f).1 (header (length raw) ++ raw)).1
            8
          ≡ ok found
        → found ≡ header (length raw)
    unfolding header
    header_read_back f raw found blank done got =
        let record_bytes = header (length raw) ++ raw in
        let short : length found ≤ length record_bytes =
          ground (arith, holds.holds_length _ found 8 got, length-header_append raw) in
        sym (take-all (length record_bytes) found short)
        ∙ holds.holds_written f record_bytes found 8 blank done got

    -- A write of 1 to 4088 bytes returns ok where the driver's erase, write and reads of the sector
    -- succeed, and a read with room for these bytes then returns exactly them.
    pub write_read :
        (f after : F) (raw start all : List ℕ) (size : ℕ)
        → length raw ≢ 0
        → length raw ≤ 4088
        → length raw ≤ size
        → (flash.blocking_erase f).0 ≡ ok tt
        → flash.blocking_write (flash.blocking_erase f).1 (header (length raw) ++ raw)
          ≡ (ok tt, after)
        → flash.blocking_read after 8 ≡ ok start
        → flash.blocking_read after 4096 ≡ ok all
        → (write flash f raw ≡ (ok tt, after)) × (read flash after size ≡ (ok raw, after))
    write_read f after raw start all size some_bytes fits room blank done got_start got_all =
        let wrote = ap (λ r. r.0) done in
        let here = ap (λ r. r.1) done in
        let begins =
          header_read_back f raw start blank wrote
            (subst (λ g. flash.blocking_read g 8 ≡ ok start) (sym here) got_start) in
        let raw_again =
          written_data f raw all size some_bytes fits room blank wrote
            (subst (λ g. flash.blocking_read g 4096 ≡ ok all) (sym here) got_all) in
        let same = verify-header after raw (got_start ∙ ap (λ bs. ok bs) begins) in
        (
          write-verified f after raw some_bytes fits blank done same,
          read-answered after all size got_all ∙ ap (λ bs. (ok bs, after)) raw_again,
        )

    flash_storage-KeepsRecords : KeepsRecords (flash_storage flash)
    flash_storage-KeepsRecords = record {
      reads_back = written_reads_back;
      reads_nothing = cleared_reads_nothing;
    }
