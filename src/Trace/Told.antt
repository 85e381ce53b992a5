-- ===== src/Trace/Told.antt =====
-- What the trace of a request tells of its verdict.
use smr_simulator.Base.{ℕ, ◌≡◌, ◌≢◌, arith, List, [], ◌∷◌, ◌++◌, some, ◌⊎◌, inl, inr, Option-cases}
use smr_simulator.Types.{ZoneStatus, Code, success, Bio, Dir, read, write}
use smr_simulator.State.{Sim, zone_at, zone_idx_of}
use smr_simulator.Idle.{dev_idle_update}
use smr_simulator.Rules.Write.{write_rule_check}
use smr_simulator.Rules.Read.{read_rule_check}
use smr_simulator.Map.{
  Target, Verdict, remapped, refused, mapped, nomap, map_write, map_read, by_direction, map_at, map,
}
use smr_simulator.Trace.Entry.{
  Entry, bio_read_check_evt, bio_write_check_evt, bio_oop_read_check_evt, bio_oop_write_check_evt,
}
use smr_simulator.Trace.Request.{
  write_trace, read_trace, written_trace, read_back_trace, direction_trace, map_at_trace, map_trace,
}

-- What a reader takes from the entries: a rule that was broken and a refusal, a rule that was
-- broken and a delay, or nothing of either.
pub data Tale : Type 0 where
  breaks : Code → Tale
  delayed : ℕ → Code → Tale
  silent : Tale

abbrev pub tale : List Entry → Tale
tale [] = silent
tale (bio_write_check_evt m f c ∷ es) = breaks c
tale (bio_read_check_evt m f c ∷ es) = breaks c
tale (bio_oop_write_check_evt m f n c ∷ es) = delayed n c
tale (bio_oop_read_check_evt m f n c ∷ es) = delayed n c
tale (_ ∷ es) = tale es

-- The verdicts that go with a tale.
abbrev pub Tells : Tale → Verdict → Type 0
Tells (breaks c) v = (v ≡ refused) × (c ≢ success)
Tells (delayed n c) v = ((x : ℕ) × (v ≡ remapped x n)) × (c ≢ success)
Tells silent v = (v ≡ refused) ⊎ ((x : ℕ) × (v ≡ remapped x 0))

write_trace-tale :
    (s : Sim) (b : Bio) (i policy : ℕ) (es : List Entry)
    → tale (write_trace s b i policy ++ es) ≡ tale es
unfolding write_trace
write_trace-tale s b i policy es = ground arith

read_trace-tale :
    (s : Sim) (b : Bio) (i policy : ℕ) (es : List Entry)
    → tale (read_trace s b i policy ++ es) ≡ tale es
unfolding read_trace
read_trace-tale s b i policy es = ground arith

-- The branch of a write.
write-Tells :
    (s : Sim) (target : Target) (b : Bio) (i : ℕ) (z : ZoneStatus) {s' : Sim} {v : Verdict}
    → map_write s target b i z ≡ some (v, s')
    → Tells (tale (direction_trace write s b i z)) v
unfolding direction_trace map_write mapped nomap written_trace
write-Tells s target b i z {s'} {v} e =
    let wflag = s.dev_config.out_of_policy_write_flag in
    ground (
      arith,
      write_trace-tale s b i wflag (written_trace s (write_rule_check s b i wflag)),
      Option-cases (write_rule_check s b i wflag),
    )

-- The branch of a read.
read-Tells :
    (s : Sim) (target : Target) (b : Bio) (i : ℕ) (z : ZoneStatus) {s' : Sim} {v : Verdict}
    → map_read s target b i ≡ some (v, s')
    → Tells (tale (direction_trace read s b i z)) v
unfolding direction_trace map_read mapped nomap read_back_trace
read-Tells s target b i z {s'} {v} e =
    let rflag = s.dev_config.out_of_policy_read_flag in
    ground (
      arith,
      read_trace-tale s b i rflag (read_back_trace s (read_rule_check s b i rflag)),
      Option-cases (read_rule_check s b i rflag),
    )

direction-Tells :
    (dir : Dir) (s : Sim) (target : Target) (b : Bio) (i : ℕ) (z : ZoneStatus) {s' : Sim}
    {v : Verdict}
    → by_direction dir s target b i z ≡ some (v, s')
    → Tells (tale (direction_trace dir s b i z)) v
unfolding by_direction
direction-Tells write s target b i z e = write-Tells s target b i z e
direction-Tells read s target b i z e = read-Tells s target b i z e

map_at-Tells :
    (s : Sim) (target : Target) (b : Bio) (i : ℕ) {s' : Sim} {v : Verdict}
    → map_at s target b i ≡ some (v, s')
    → Tells (tale (map_at_trace s b i)) v
unfolding map_at map_at_trace nomap
map_at-Tells s target b i {s'} {v} e = elim (Option-cases (zone_at s i)) [
  | inl none_eq ↦ ground arith
  | inr (z, some_eq) ↦ ground (arith, direction-Tells b.bio_dir s target b i z {s' = s'} {v = v})
]

-- The trace of a request and its verdict, in any state and under every policy, whenever smrsim_map
-- returns: an entry of a broken rule says that the request was refused, with a code that is not 0;
-- an out-of-policy entry says that it was sent on after the delay that the entry gives; without
-- either the request was sent on without a delay, or refused by a check that is not traced.
pub map-Tells :
    (s : Sim) (target : Target) (b : Bio) (jiffies hz : ℕ) {s' : Sim} {v : Verdict}
    → map s target b jiffies hz ≡ some (v, s')
    → Tells (tale (map_trace s b jiffies hz)) v
unfolding map map_trace
map-Tells s target b jiffies hz {s'} {v} e = elim (Option-cases (dev_idle_update s jiffies hz)) [
  | inl none_eq ↦ ground arith
  | inr (s₁, some_eq) ↦
      ground (arith, map_at-Tells s₁ target b (zone_idx_of s₁ b.bi_sector) {s' = s'} {v = v})
]
