-- ===== src/Util/Count.antt =====
-- source/smrsim_util/smrsim_util.c, smrsim_num_seq_zones, and the query of all zones that the
-- commands `l 8` and `l 9` make before it.
use smr_simulator.Base.{ℕ, ◌+◌, ◌==◌, if◌then◌else◌, u32, List, [], ◌∷◌, Option, some, none}
use smr_simulator.Types.Kind
use smr_simulator.Types.{ZoneStatus}
use smr_simulator.Query.{match_all}
use smr_simulator.Ioctl.{Reply, nothing, word, config, stats, zones, given, writable, zbc_query}
use smr_simulator.Util.Run.{
  failed, Driver, Tool, fault, ◌>>=◌, ◌>>◌, pure, break, print, malloc_or_break, ioctl_call,
}

unfoldable pub count_seq : ℕ → List ZoneStatus → ℕ
count_seq cnt [] = cnt
count_seq cnt (z ∷ zs) =
    let found = count_seq (u32 (cnt + 1)) zs in
    let passed = count_seq cnt zs in if z.z_type == Kind.sequential then found else passed

-- The test reads the number of zones through the null pointer.
unfoldable pub num_seq_zones : Option (List ZoneStatus) → Tool ℕ
unfolding count_seq
num_seq_zones none r = fault
num_seq_zones (some zs) r = pure (count_seq 0 zs) r

-- The entries of `ptr` after a call that returned 0.
abbrev pub copied_zones : Reply → List ZoneStatus
copied_zones (zones a) = a.copied
copied_zones nothing = []
copied_zones (word n) = []
copied_zones (config c) = []
copied_zones (stats t) = []

unfoldable pub query_seq_zones : Driver → ℕ → Tool ℕ
unfolding num_seq_zones
query_seq_zones call num = do
  malloc_or_break
  o ←
      ioctl_call call
        (zbc_query (given (record { lba = 0; num_zones = num; criteria = match_all })) writable)
  elim o [
    | none ↦ (do print failed; break; pure 0)
    | some w ↦ num_seq_zones (some (copied_zones w))
  ]
