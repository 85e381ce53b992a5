-- ===== src/Pstore/Gap.antt =====
-- The queue of changed zones, and the counter that should trigger a full save.
use smr_simulator.Base.{
  ℕ, zero, suc, ◌+◌, ◌≡◌, ◌<◌, arith, true, List, [], ◌∷◌, length, set, take, length-set, u8, ◌⊎◌,
  inl, inr, ltb, ◌&&◌, if◌then◌else◌, Bool-cases,
}
use native.Mathlib.Decide.{dec_lt}
use smr_simulator.State.{PstoreTask}
use smr_simulator.Pstore.Spread.{IsQueue, AllFar, Spread, IsSpread}
use smr_simulator.Pstore.Queue.{
  pstore_qdepth, pstore_pg_edg, pstore_pg_gap, abs_diff, all_apart, any_near, queued,
  ptask_queue_ok, ptask_gap_ok, note_write, note_refusal, note_config,
}

-- An index just appended is near itself.
any_near-append :
    (idx n : ℕ) (xs : List ℕ) → n < length xs → any_near idx (take (suc n) (set xs n idx)) ≡ true
unfolding any_near abs_diff
any_near-append idx n [] h = absurd (omega arith)
any_near-append idx zero (x ∷ xs) h = ground arith
any_near-append idx (suc n) (x ∷ xs) h = ground (arith, any_near-append idx n xs)

appended_near :
    (p : PstoreTask) (idx : ℕ)
    → IsQueue p
    → p.stu_zone_idx_cnt < pstore_qdepth
    → any_near idx (take (u8 (p.stu_zone_idx_cnt + 1)) (set p.stu_zone_idx p.stu_zone_idx_cnt idx))
      ≡ true
appended_near p idx q h =
    rw next (any_near-append idx p.stu_zone_idx_cnt p.stu_zone_idx (omega arith))
  where
    next : u8 (p.stu_zone_idx_cnt + 1) ≡ suc p.stu_zone_idx_cnt
    next = omega arith

-- For a queue of 128 entries at most, noting a write never counts a gap: `smrsim_ptask_gap_ok`
-- looks at the queue with the new index in it, which is at distance 0. The counter changes only
-- where the queue is full, to the threshold.
pub gap-note_write :
    (p : PstoreTask) (idx : ℕ)
    → IsQueue p
    → ((note_write p idx).stu_zone_idx_gap ≡ p.stu_zone_idx_gap)
      ⊎ ((p.stu_zone_idx_cnt ≡ pstore_qdepth)
          × ((note_write p idx).stu_zone_idx_gap ≡ pstore_pg_gap))
unfolding note_write ptask_gap_ok
gap-note_write p idx q = elim (dec_lt p.stu_zone_idx_cnt pstore_qdepth) [
  | yes h ↦ inl (ground (arith, appended_near p idx q h))
  | no h ↦ inr (omega arith, ground arith)
]

-- Noting a write keeps the array of the queue and its bound.
pub note_write-IsQueue : (p : PstoreTask) (idx : ℕ) → IsQueue p → IsQueue (note_write p idx)
unfolding note_write
note_write-IsQueue p idx q = ground (arith, length-set p.stu_zone_idx p.stu_zone_idx_cnt idx)

all_apart-far :
    (idx : ℕ) (x : ℕ) (xs : List ℕ)
    → all_apart idx (x ∷ xs) ≡ true
    → (pstore_pg_edg < abs_diff idx x) × (all_apart idx xs ≡ true)
unfolding all_apart
all_apart-far idx x xs h = ground arith

AllFar-append :
    (x idx n : ℕ) (xs : List ℕ)
    → n < length xs
    → AllFar x (take n xs)
    → pstore_pg_edg < abs_diff idx x
    → AllFar x (take (suc n) (set xs n idx))
AllFar-append x idx n [] h f a = absurd (omega arith)
AllFar-append x idx zero (y ∷ ys) h f a = (a, tt)
AllFar-append x idx (suc n) (y ∷ ys) h f a = (f.0, AllFar-append x idx n ys (omega arith) f.1 a)

Spread-append :
    (idx n : ℕ) (xs : List ℕ)
    → n < length xs
    → Spread (take n xs)
    → all_apart idx (take n xs) ≡ true
    → Spread (take (suc n) (set xs n idx))
Spread-append idx n [] h s a = absurd (omega arith)
Spread-append idx zero (y ∷ ys) h s a = (tt, tt)
Spread-append idx (suc n) (y ∷ ys) h s a =
    let (far, apart) = all_apart-far idx y (take n ys) a in
    (AllFar-append y idx n ys (omega arith) s.0 far, Spread-append idx n ys (omega arith) s.1 apart)

queued-note_write :
    (p : PstoreTask) (idx : ℕ)
    → IsQueue p
    → queued (note_write p idx) ≡ (
        if ltb p.stu_zone_idx_cnt pstore_qdepth && all_apart idx (queued p)
        then take (suc p.stu_zone_idx_cnt) (set p.stu_zone_idx p.stu_zone_idx_cnt idx)
        else queued p)
unfolding note_write ptask_queue_ok
queued-note_write p idx q = elim (dec_lt p.stu_zone_idx_cnt pstore_qdepth) [
  | yes h ↦ ground (arith, next h)
  | no h ↦ ground arith
]
  where
    next : p.stu_zone_idx_cnt < pstore_qdepth → u8 (p.stu_zone_idx_cnt + 1) ≡ suc p.stu_zone_idx_cnt
    next h = omega arith

-- Noting a write keeps that the queue, an array of 128 entries, holds no two zones within one
-- page's worth of entries (`Spread`).
pub note_write-Spread :
    (p : PstoreTask) (idx : ℕ) → IsQueue p → Spread (queued p) → Spread (queued (note_write p idx))
note_write-Spread p idx q s =
    rw (queued-note_write p idx q)
      (elim (Bool-cases (ltb p.stu_zone_idx_cnt pstore_qdepth && all_apart idx (queued p))) [
        | inl e ↦
            rw e
              (Spread-append idx p.stu_zone_idx_cnt p.stu_zone_idx (ground arith) s (ground arith))
        | inr e ↦ rw e s
      ])

-- The same for the whole invariant of the queue.
pub note_write-IsSpread : (p : PstoreTask) (idx : ℕ) → IsSpread p → IsSpread (note_write p idx)
note_write-IsSpread p idx q = record {
  queue = note_write-IsQueue p idx q.queue;
  spread = note_write-Spread p idx q.queue q.spread;
}

pub note_refusal-IsSpread : (p : PstoreTask) (idx : ℕ) → IsSpread p → IsSpread (note_refusal p idx)
unfolding note_refusal
note_refusal-IsSpread p idx q = record {
  queue = record { room = q.queue.room; used = q.queue.used };
  spread = q.spread;
}

pub note_config-IsSpread : (p : PstoreTask) → IsSpread p → IsSpread (note_config p)
unfolding note_config
note_config-IsSpread p q = record {
  queue = record { room = q.queue.room; used = q.queue.used };
  spread = q.spread;
}

-- An empty queue is in order.
pub empty-IsSpread :
    (p : PstoreTask) → length p.stu_zone_idx ≡ pstore_qdepth → p.stu_zone_idx_cnt ≡ 0 → IsSpread p
empty-IsSpread p e z = record { queue = record { room = e; used = omega arith }; spread = rw z tt }
