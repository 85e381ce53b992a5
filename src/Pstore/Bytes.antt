-- ===== src/Pstore/Bytes.antt =====
-- dm-smrsim.c, smrsim_save_persistence and smrsim_load_persistence on the bytes of the object: the
-- device after `pstore_lba` as its pages by index, the page size and the kernel's crc32 as
-- arguments.
use smr_simulator.Base.{
  ℕ, zero, suc, ◌+◌, ◌-◌, ◌*◌, ◌/◌, ◌%◌, Bool, not, if◌then◌else◌, ◌==◌, List, [], ◌++◌, take, drop,
  get_elem?, Option, some, none,
}

-- The pages of the device that hold the object.
abbrev pub Pages : Type 0
Pages = ℕ → List ℕ

-- `smrsim_write_page`
abbrev pub write_page : Pages → ℕ → List ℕ → Pages
write_page d idx page k = if k == idx then page else d k

-- A byte, and a little-endian __u32.
abbrev pub byte : List ℕ → ℕ → ℕ
byte xs i = elim (get_elem? xs i) [ none ↦ 0 | some b ↦ b ]

unfoldable pub le32 : List ℕ → ℕ → ℕ
le32 xs i = byte xs i + 256 * (byte xs (i + 1) + 256 * (byte xs (i + 2) + 256 * byte xs (i + 3)))

-- The fields of `struct smrsim_state_header` in the first page.
abbrev pub magic_of : List ℕ → ℕ
magic_of xs = le32 xs 0

abbrev pub length_of : List ℕ → ℕ
length_of xs = le32 xs 4

abbrev pub crc_field : List ℕ → ℕ
crc_field xs = le32 xs 12

module _ (page_size : ℕ) where
  -- `memcpy(page_addr, zone_state + idx * PAGE_SIZE, PAGE_SIZE)`
  abbrev pub page_of : List ℕ → ℕ → List ℕ
  page_of bytes idx = take page_size (drop (idx * page_size) bytes)

  -- The loop over the full pages, by the rounds left.
  unfoldable pub save_full : ℕ → ℕ → List ℕ → Pages → Pages
  save_full zero idx bytes d = d
  save_full (suc n) idx bytes d = save_full n (idx + 1) bytes (write_page d idx (page_of bytes idx))

  -- The last page holds the rest of the object, and behind it what was in the buffer.
  unfoldable pub save_bytes : List ℕ → List ℕ → Pages → Pages
  save_bytes bytes stale d =
      let full = length_of bytes / page_size in
      let part = length_of bytes % page_size in
      let d₁ = save_full full 0 bytes d in
      if part == 0
      then d₁
      else write_page d₁ full (take part (drop (full * page_size) bytes) ++ stale)

  unfoldable pub load_full : ℕ → ℕ → Pages → List ℕ
  load_full zero idx d = []
  load_full (suc n) idx d = d idx ++ load_full n (idx + 1) d

  -- The first page was read for the header.
  unfoldable pub load_bytes : ℕ → Pages → List ℕ
  load_bytes len d =
      let full = len / page_size in
      let part = len % page_size in
      (if full == 0 then [] else d 0)
      ++ load_full (full - 1) 1 d
      ++ (if part == 0 then [] else take part (d full))

  -- `none` where the defaults are set up instead. A stored length below 16, for which the subtraction
  -- of C goes round, is taken as 16.
  unfoldable pub load_persistence : (List ℕ → ℕ) → Bool → Pages → Option (List ℕ)
  load_persistence crc32 vzalloc d =
      let bytes = load_bytes (length_of (d 0)) d in
      if not (magic_of (d 0) == 0xBEEFBEEF)
      then none
      else if not vzalloc
      then none
      else if crc32 (take (length_of bytes - 16) (drop 16 bytes)) == crc_field bytes
      then some bytes
      else none
