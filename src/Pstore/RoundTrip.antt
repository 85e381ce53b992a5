-- ===== src/Pstore/RoundTrip.antt =====
-- What was saved is loaded again.
use native.Mathlib.Decide.{dec_lt}
use smr_simulator.Base.{
  ℕ, zero, suc, ◌+◌, ◌-◌, ◌*◌, ◌/◌, ◌%◌, ◌≡◌, ◌≢◌, ◌≤◌, ◌<◌, arith, refl, ap, sym, ◌∙◌, true, false,
  if◌then◌else◌, ◌==◌, List, [], ◌++◌, take, drop, length, get_elem?, some, none,
}
use smr_simulator.Pstore.Segments.{
  take-append-drop, drop-drop, get_elem?-take, zero_mul, succ_mul, suc_mul, take-whole, length-drop,
  take_whole, take-drop, nil_of_length,
}
use smr_simulator.Pstore.Bytes.{
  Pages, write_page, byte, le32, magic_of, length_of, crc_field, page_of, save_full, save_bytes,
  load_full, load_bytes, load_persistence,
}

byte-same : (xs ys : List ℕ) (i : ℕ) → get_elem? xs i ≡ get_elem? ys i → byte xs i ≡ byte ys i
byte-same xs ys i e = ap (λ o. elim o [ none ↦ 0 | some b ↦ b ]) e

le32-same :
    (xs ys : List ℕ) (i : ℕ)
    → get_elem? xs i ≡ get_elem? ys i
    → get_elem? xs (i + 1) ≡ get_elem? ys (i + 1)
    → get_elem? xs (i + 2) ≡ get_elem? ys (i + 2)
    → get_elem? xs (i + 3) ≡ get_elem? ys (i + 3)
    → le32 xs i ≡ le32 ys i
unfolding le32
le32-same xs ys i e₀ e₁ e₂ e₃ = omega (
  arith,
  byte-same xs ys i e₀,
  byte-same xs ys (i + 1) e₁,
  byte-same xs ys (i + 2) e₂,
  byte-same xs ys (i + 3) e₃,
)

module _ (page_size : ℕ) where
  save_full-below :
      (n idx k : ℕ) (bytes : List ℕ) (d : Pages)
      → k < idx
      → save_full page_size n idx bytes d k ≡ d k
  unfolding save_full
  save_full-below zero idx k bytes d h = refl
  save_full-below (suc n) idx k bytes d h =
      let d₁ = write_page d idx (page_of page_size bytes idx) in
      let kept : d₁ k ≡ d k = ground arith in
      save_full-below n (idx + 1) k bytes d₁ (omega arith) ∙ kept

  save_full-page :
      (n idx k : ℕ) (bytes : List ℕ) (d : Pages)
      → idx ≤ k
      → k < idx + n
      → save_full page_size n idx bytes d k ≡ page_of page_size bytes k
  unfolding save_full
  save_full-page zero idx k bytes d l h = absurd (omega arith)
  save_full-page (suc n) idx k bytes d l h =
      let d₁ = write_page d idx (page_of page_size bytes idx) in
      elim (dec_lt idx k) [
        | yes lt ↦ save_full-page n (idx + 1) k bytes d₁ (omega arith) (omega arith)
        | no ge ↦
            let same : k ≡ idx = omega arith in
            let here : d₁ idx ≡ page_of page_size bytes idx = ground arith in
            rw same (save_full-below n (idx + 1) idx bytes d₁ (omega arith) ∙ here)
      ]

  load_full-pages :
      (n idx : ℕ) (bytes : List ℕ) (d : Pages)
      → ((k : ℕ) → idx ≤ k → k < idx + n → d k ≡ page_of page_size bytes k)
      → load_full page_size n idx d ≡ take (n * page_size) (drop (idx * page_size) bytes)
  unfolding load_full
  load_full-pages zero idx bytes d h =
      ap (λ m. take m (drop (idx * page_size) bytes)) (sym (zero_mul page_size))
  load_full-pages (suc n) idx bytes d h =
      let rest = load_full-pages n (idx + 1) bytes d (λ k l r. h k (omega arith) (omega arith)) in
      let here = h idx (omega arith) (omega arith) in
      (let further : drop ((idx + 1) * page_size) bytes
            ≡ drop page_size (drop (idx * page_size) bytes) =
          ap (λ m. drop m bytes) (succ_mul idx page_size)
          ∙ sym (drop-drop (idx * page_size) page_size bytes) in
        rw (here, rest, further)
          (take-append-drop page_size (n * page_size) (drop (idx * page_size) bytes)
            ∙ ap (λ m. take m (drop (idx * page_size) bytes)) (suc_mul n page_size)))

  first-and-rest :
      (full : ℕ) (d : Pages) (tail : List ℕ)
      → (if full == 0 then [] else d 0) ++ load_full page_size (full - 1) 1 d ++ tail
        ≡ load_full page_size full 0 d ++ tail
  unfolding load_full
  first-and-rest zero d tail = refl
  first-and-rest (suc n) d tail =
      let no : (suc n == 0) ≡ false = ground arith in
      rw no (ap (λ m. d 0 ++ load_full page_size m 1 d ++ tail) (omega arith))

  -- The pages of an object that fills `full` of them and `part` bytes of one more.
  module _ (bytes stale : List ℕ) (d : Pages) (e : length_of bytes ≡ length bytes) where
    abbrev saved : Pages
    saved = save_bytes page_size bytes stale d

    abbrev full : ℕ
    full = length bytes / page_size

    abbrev part : ℕ
    part = length bytes % page_size

    saved-page : (k : ℕ) → k < full → saved k ≡ page_of page_size bytes k
    unfolding save_bytes
    saved-page k h =
        rw e (ground (arith, save_full-page full 0 k bytes d (omega arith) (omega arith)))

    split_length : 0 < page_size → length (drop (full * page_size) bytes) ≡ part
    split_length h = omega (arith, length-drop (full * page_size) bytes)

    full-part : 0 < page_size → full * page_size + part ≡ length bytes
    full-part h = omega arith

    saved-last : 0 < page_size → part ≢ 0 → take part (saved full) ≡ drop (full * page_size) bytes
    unfolding save_bytes
    saved-last h ne =
        let rest = drop (full * page_size) bytes in
        let whole : take part rest ≡ rest = take_whole part rest (split_length h) in
        let last : saved full ≡ take part rest ++ stale = rw e (ground arith) in
        rw (last, whole) (take-whole part rest stale (split_length h))

    last-part :
        0 < page_size
        → (if part == 0 then [] else take part (saved full)) ≡ drop (full * page_size) bytes
    last-part h = elim (dec_lt 0 part) [
      | yes lt ↦ ground (arith, saved-last h)
      | no ge ↦
          let none_left : part ≡ 0 = omega arith in
          let empty : (part == 0) ≡ true = ground arith in
          rw empty (nil_of_length (drop (full * page_size) bytes) (omega (arith, split_length h)))
    ]

    full-pages : load_full page_size full 0 saved ≡ take (full * page_size) bytes
    full-pages =
        load_full-pages full 0 bytes saved (λ k l h. saved-page k (omega arith))
        ∙ ap (λ m. take (full * page_size) (drop m bytes)) (zero_mul page_size)

    -- The pages that were written are read back as the object.
    load_bytes-save_bytes : 0 < page_size → load_bytes page_size (length bytes) saved ≡ bytes
    unfolding load_bytes
    load_bytes-save_bytes h =
        first-and-rest full saved (if part == 0 then [] else take part (saved full))
        ∙ (rw (full-pages, last-part h) (take-drop (full * page_size) bytes))

    header_byte :
        16 ≤ page_size
        → 16 ≤ length bytes
        → (j : ℕ) → j < 16
        → get_elem? (saved 0) j ≡ get_elem? bytes j
    header_byte h l j lt = elim (dec_lt 0 full) [
      | yes some_full ↦
          rw (saved-page 0 some_full, zero_mul page_size)
            (get_elem?-take page_size j bytes (omega arith))
      | no none_full ↦
          let empty : full ≡ 0 = omega arith in
          let all : part ≡ length bytes =
            omega (arith, full-part (omega arith), ap (λ f. f * page_size) empty) in
          let back : take part (saved 0) ≡ bytes =
            ap (λ f. take part (saved f)) (sym empty)
            ∙ saved-last (omega arith) (omega arith)
            ∙ ap (λ f. drop (f * page_size) bytes) empty
            ∙ ap (λ m. drop m bytes) (zero_mul page_size) in
          sym (get_elem?-take part j (saved 0) (omega arith)) ∙ ap (λ xs. get_elem? xs j) back
    ]

    header_word :
        16 ≤ page_size → 16 ≤ length bytes → (i : ℕ) → i + 3 < 16 → le32 (saved 0) i ≡ le32 bytes i
    header_word h l i lt =
        le32-same (saved 0) bytes i (header_byte h l i (omega arith))
          (header_byte h l (i + 1) (omega arith)) (header_byte h l (i + 2) (omega arith))
          (header_byte h l (i + 3) (omega arith))

    -- An object whose header has the magic word, its length and its checksum is loaded byte for
    -- byte from the pages to which it was saved, whatever was on the device and in the buffer
    -- before, if a page has room for the header and there is memory for the object.
    pub load-save :
        (crc32 : List ℕ → ℕ)
        → 16 ≤ page_size
        → 16 ≤ length bytes
        → magic_of bytes ≡ 0xBEEFBEEF
        → crc32 (take (length_of bytes - 16) (drop 16 bytes)) ≡ crc_field bytes
        → load_persistence page_size crc32 true (save_bytes page_size bytes stale d) ≡ some bytes
    unfolding load_persistence
    load-save crc32 h l magic crc =
        let len = header_word h l 4 (omega arith) ∙ e in
        let read = load_bytes-save_bytes (omega arith) in
        rw (header_word h l 0 (omega arith), len, read) (ground (arith, magic, crc))
