-- ===== src/Pstore/Spread.antt =====
-- The queue of changed zones: the array `stu_zone_idx`, and how far apart its entries are.
use smr_simulator.Base.{ℕ, ◌≡◌, ◌<◌, ◌≤◌, List, [], ◌∷◌, length}
use smr_simulator.State.{PstoreTask}
use smr_simulator.Pstore.Queue.{pstore_qdepth, pstore_pg_edg, abs_diff, queued}

-- An array of 128 entries, of which `stu_zone_idx_cnt` are used.
pub record IsQueue (p : PstoreTask) : Type 0 where
  pub room : length p.stu_zone_idx ≡ pstore_qdepth
  pub used : p.stu_zone_idx_cnt ≤ pstore_qdepth

-- Every index of the list is more than a page's worth of zones away from `idx`.
abbrev pub AllFar : ℕ → List ℕ → Type 0
AllFar idx [] = Unit {0}
AllFar idx (x ∷ xs) = (pstore_pg_edg < abs_diff x idx) × AllFar idx xs

-- Any two of the list are that far apart.
abbrev pub Spread : List ℕ → Type 0
Spread [] = Unit {0}
Spread (x ∷ xs) = AllFar x xs × Spread xs

-- No two zones of the queue share a page.
pub record IsSpread (p : PstoreTask) : Type 0 where
  pub queue : IsQueue p
  pub spread : Spread (queued p)
