-- ===== src/Pstore/Queue.antt =====
-- dm-smrsim.c, smrsim_ptask_queue_ok and smrsim_ptask_gap_ok, and the part of smrsim_map that notes
-- a zone whose status changed.
use smr_simulator.Base.{
  ℕ, ◌+◌, ◌-◌, ◌*◌, ◌^◌, Bool, true, false, if◌then◌else◌, ltb, leb, ◌==◌, u8, sub32, List, [], ◌∷◌,
  set, take,
}
use smr_simulator.State.{PstoreTask}

abbrev pub pstore_pg_edg : ℕ
pstore_pg_edg = 92

abbrev pub pstore_qdepth : ℕ
pstore_qdepth = 128

abbrev pub pstore_pg_gap : ℕ
pstore_pg_gap = 2

-- `abs` of the int that a __u32 difference is converted to.
unfoldable pub abs_diff : ℕ → ℕ → ℕ
abs_diff a b = let d = sub32 a b in if ltb d (2 ^ 31) then d else 2 ^ 32 - d

-- Both loops run over the first `stu_zone_idx_cnt` entries.
unfoldable pub all_apart : ℕ → List ℕ → Bool
all_apart idx [] = true
all_apart idx (q ∷ qs) = if leb (abs_diff idx q) pstore_pg_edg then false else all_apart idx qs

unfoldable pub any_near : ℕ → List ℕ → Bool
any_near idx [] = false
any_near idx (q ∷ qs) =
    if leb (abs_diff idx q) (pstore_pg_gap * pstore_pg_edg) then true else any_near idx qs

abbrev pub queued : PstoreTask → List ℕ
queued p = take p.stu_zone_idx_cnt p.stu_zone_idx

unfoldable pub ptask_queue_ok : PstoreTask → ℕ → Bool
unfolding all_apart
ptask_queue_ok p idx = all_apart idx (queued p)

unfoldable pub ptask_gap_ok : PstoreTask → ℕ → Bool
unfolding any_near
ptask_gap_ok p idx = any_near idx (queued p)

-- `flag |= SMR_STATUS_CHANGE` and the bookkeeping after an accepted write.
unfoldable pub note_write : PstoreTask → ℕ → PstoreTask
note_write p idx =
    if p'.stu_zone_idx_cnt == pstore_qdepth
    then record p' { stu_zone_idx_gap = pstore_pg_gap }
    else if ptask_queue_ok p' idx
    then (if ptask_gap_ok q idx
        then q
        else record q { stu_zone_idx_gap = u8 (q.stu_zone_idx_gap + 1) })
    else p'
  where
    p' : PstoreTask
    p' = record p { flag = record p.flag { status_change = true } }

    q : PstoreTask
    q = record p' {
      stu_zone_idx = set p'.stu_zone_idx p'.stu_zone_idx_cnt idx;
      stu_zone_idx_cnt = u8 (p'.stu_zone_idx_cnt + 1);
    }

-- `flag |= SMR_STATS_CHANGE; sts_zone_idx = zone_idx` after a refused request.
unfoldable pub note_refusal : PstoreTask → ℕ → PstoreTask
note_refusal p idx = record p { flag = record p.flag { stats_change = true }; sts_zone_idx = idx }

-- `flag |= SMR_CONFIG_CHANGE`
unfoldable pub note_config : PstoreTask → PstoreTask
note_config p = record p { flag = record p.flag { config_change = true } }
