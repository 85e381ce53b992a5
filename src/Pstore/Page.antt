-- ===== src/Pstore/Page.antt =====
-- dm-smrsim.c, smrsim_read_page and smrsim_write_page: one page by a bio that is waited for.
use smr_simulator.Base.{ℕ, ◌≡◌, if◌then◌else◌, ltb, arith, refl, List, replicate}
use smr_simulator.Pstore.Bytes.{Pages, write_page}

-- No memory for the bio, a bio that comes back not up to date, or one that is.
pub data PageIo : Type 0 where
  no_bio io_failed io_done : PageIo

-- -EFAULT, -EIO, and the 1 that `test_bit` gives.
pub data PageCode : Type 0 where
  page_efault page_eio one : PageCode

-- `torn` is what a bio that failed leaves in the buffer, or on the disk.
unfoldable pub read_page : PageIo → List ℕ → Pages → ℕ → List ℕ → PageCode × List ℕ
read_page no_bio torn d idx buffer = (page_efault, buffer)
read_page io_failed torn d idx buffer = (page_eio, torn)
read_page io_done torn d idx buffer = (one, d idx)

unfoldable pub write_bio : PageIo → List ℕ → Pages → ℕ → List ℕ → PageCode × Pages
write_bio no_bio torn d idx page = (page_efault, d)
write_bio io_failed torn d idx page = (page_eio, write_page d idx torn)
write_bio io_done torn d idx page = (one, write_page d idx page)

-- The pages as a load sees them: the buffer is zeroed before each read, and its code is not looked
-- at.
unfoldable pub pages_read : ℕ → (ℕ → PageIo) → Pages → Pages → Pages
unfolding read_page
pages_read page_size io torn d idx = (read_page (io idx) (torn idx) d idx (replicate page_size 0)).1

-- The pages after a save that was to make `d` into `saved`, of which it writes the first `count`
-- once each; the code of a write is not looked at.
unfoldable pub pages_written : ℕ → (ℕ → PageIo) → Pages → Pages → Pages → Pages
unfolding write_bio
pages_written count io torn d saved idx =
    if ltb idx count then (write_bio (io idx) (torn idx) d idx (saved idx)).1 idx else saved idx

pub pages_read-done :
    (page_size : ℕ) (io : ℕ → PageIo) (torn d : Pages)
    → ((idx : ℕ) → io idx ≡ io_done)
    → pages_read page_size io torn d ≡ d
unfolding pages_read read_page
pages_read-done page_size io torn d h = λ i idx. here idx i
  where
    here : (idx : ℕ) → (read_page (io idx) (torn idx) d idx (replicate page_size 0)).1 ≡ d idx
    here idx = rw (h idx) refl

pub pages_written-done :
    (count : ℕ) (io : ℕ → PageIo) (torn d saved : Pages)
    → ((idx : ℕ) → io idx ≡ io_done)
    → pages_written count io torn d saved ≡ saved
unfolding pages_written write_bio
pages_written-done count io torn d saved h = λ i idx. here idx i
  where
    here :
        (idx : ℕ)
        → (if ltb idx count
            then (write_bio (io idx) (torn idx) d idx (saved idx)).1 idx
            else saved idx)
          ≡ saved idx
    here idx = rw (h idx) (ground arith)
