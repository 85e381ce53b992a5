-- ===== src/Pstore/Object.antt =====
-- dm-smrsim.c: the bytes of the object `zone_state`, as smrsim_init_zone_state_default lays it out,
-- and what smrsim_load_persistence takes them for.
use smr_simulator.Base.{ℕ, zero, suc, ◌/◌, List, [], ◌∷◌, length, Option, some, none, shr}
use smr_simulator.State.{Sim, live}
use smr_simulator.Init.{magic_word, sizeof_zone_status, index_power_of_2}
use smr_simulator.Pstore.Codec.{
  put, get, put_header, put_config, put_idle, put_stats, put_zone, get_header, get_config, get_idle,
  get_zone_stats, get_zone,
}

unfoldable pub put_all : {A : Type 0} → (A → List ℕ → List ℕ) → List A → List ℕ → List ℕ
put_all f [] rest = rest
put_all f (a ∷ others) rest = f a (put_all f others rest)

unfoldable pub get_all : {A : Type 0} → (List ℕ → A × List ℕ) → ℕ → List ℕ → List A × List ℕ
get_all f zero xs = ([], xs)
get_all f (suc n) xs =
    let (a, xs₁) = f xs in let (others, xs₂) = get_all f n xs₁ in (a ∷ others, xs₂)

-- Behind the header: the configuration, the statistics, the zones and the second magic word.
unfoldable pub body_bytes : Sim → List ℕ
unfolding put_all
body_bytes s = put_config s.dev_config (
    put_idle s.idle_stats (
      put 4 s.num_zones
        (put_all put_stats s.zone_stats (put_all put_zone s.zone_status (put 4 magic_word [])))))

unfoldable pub object_bytes : Sim → List ℕ
unfolding body_bytes
object_bytes s = put_header s.header (body_bytes s)

-- `zone_state` and `zone_status` after the load: the zones stand behind `stats.num_zones` entries
-- of statistics, as many as there is room for.
unfoldable pub read_object : List ℕ → Sim → Sim
unfolding get_all
read_object bytes s =
    let (header, xs₁) = get_header bytes in
    let (dev_config, xs₂) = get_config xs₁ in
    let (idle, xs₃) = get_idle xs₂ in
    let (num, xs₄) = get 4 xs₃ in
    let (counters, xs₅) = get_all get_zone_stats num xs₄ in
    let (table, xs₆) = get_all get_zone (length xs₅ / sizeof_zone_status) xs₅ in
    record s {
      memory = live;
      header = header;
      dev_config = dev_config;
      idle_stats = idle;
      num_zones = num;
      zone_stats = counters;
      zone_status = table;
    }

-- The globals that the load sets. `zone_status[0]` of an object without a zone is a fault.
unfoldable pub set_globals : Sim → Option Sim
set_globals s = elim s.zone_status [
  | [] ↦ none
  | z ∷ zs ↦ some (record s {
    smr_numzones = s.num_zones;
    smr_zone_size_shift = index_power_of_2 (shr z.z_length s.smr_block_size_shift);
  })
]
