-- ===== src/Pstore/Reading.antt =====
-- Reading the object's bytes: its arrays, its fields and the words of its header.
use smr_simulator.Base.{
  ℕ, suc, ◌+◌, ◌*◌, ◌/◌, ◌^◌, ◌≡◌, ◌<◌, arith, refl, List, [], ◌∷◌, length, drop,
}
use smr_simulator.State.{Sim, live}
use smr_simulator.Init.{magic_word}
use smr_simulator.Pstore.Codec.{
  put, get-put, length-put, put_header, put_stats, put_zone, get_zone_stats, get_zone,
}
use smr_simulator.Pstore.Fields.{
  HeaderFits, ConfigFits, IdleFits, StatsFit, ZoneFits, get_header-put, get_config-put,
  get_idle-put, get_zone_stats-put, get_zone-put, length-put_header, length-put_config,
  length-put_idle, length-put_stats, length-put_zone,
}
use smr_simulator.Pstore.Object.{put_all, get_all, body_bytes, object_bytes, read_object}
use smr_simulator.Pstore.Bytes.{le32, magic_of, length_of, crc_field}

abbrev pub All : {A : Type 0} → (A → Type 0) → List A → Type 0
All P [] = Unit
All P (a ∷ others) = P a × All P others

pub get_all-put :
    {A : Type 0} (P : A → Type 0) (f : A → List ℕ → List ℕ) (g : List ℕ → A × List ℕ)
    → ((a : A) (rest : List ℕ) → P a → g (f a rest) ≡ (a, rest))
    → (others : List A) (rest : List ℕ) → All P others
    → get_all g (length others) (put_all f others rest) ≡ (others, rest)
unfolding get_all put_all
get_all-put P f g back [] rest h = refl
get_all-put P f g back (a ∷ others) rest h =
    rw (back a (put_all f others rest) (h.0), get_all-put P f g back others rest (h.1)) refl

pub length-put_all :
    {A : Type 0} (f : A → List ℕ → List ℕ) (k : ℕ)
    → ((a : A) (rest : List ℕ) → length (f a rest) ≡ k + length rest)
    → (others : List A) (rest : List ℕ)
    → length (put_all f others rest) ≡ length others * k + length rest
unfolding put_all
length-put_all f k size [] rest = omega arith
length-put_all f k size (a ∷ others) rest = omega (
  arith,
  size a (put_all f others rest),
  length-put_all f k size others rest,
  suc_times (length others) k,
)
  where
    suc_times : (n k : ℕ) → suc n * k ≡ k + n * k
    suc_times n k = grind arith

-- The fields of the object fit their words, and both arrays have the number of zones.
pub record ObjectFits (s : Sim) : Type 0 where
  pub header_fits : HeaderFits s.header
  pub config_fits : ConfigFits s.dev_config
  pub idle_fits : IdleFits s.idle_stats
  pub stats_fit : All StatsFit s.zone_stats
  pub zones_fit : All ZoneFits s.zone_status
  pub stats_counted : length s.zone_stats ≡ s.num_zones
  pub zones_counted : length s.zone_status ≡ s.num_zones
  pub num_fits : s.num_zones < 2 ^ 32

pub length-body : (s : Sim) → ObjectFits s → length (body_bytes s) ≡ 44 * s.num_zones + 28
unfolding body_bytes
length-body s f = omega (
  arith,
  length-put_config s.dev_config _,
  length-put_idle s.idle_stats _,
  length-put 4 s.num_zones _,
  length-put_all put_stats 20 length-put_stats s.zone_stats _,
  length-put_all put_zone 24 length-put_zone s.zone_status (put 4 magic_word []),
  length-put 4 magic_word [],
  f.stats_counted,
  f.zones_counted,
)

-- The state `t` with the object of `s`.
abbrev pub with_object : Sim → Sim → Sim
with_object t s = record t {
  memory = live;
  header = s.header;
  dev_config = s.dev_config;
  idle_stats = s.idle_stats;
  num_zones = s.num_zones;
  zone_stats = s.zone_stats;
  zone_status = s.zone_status;
}

abbrev table_bytes : Sim → List ℕ
table_bytes s = put_all put_zone s.zone_status (put 4 magic_word [])

table_room : (s : Sim) → length (table_bytes s) / 24 ≡ length s.zone_status
table_room s = omega (
  arith,
  length-put_all put_zone 24 length-put_zone s.zone_status (put 4 magic_word []),
  length-put 4 magic_word [],
)

read_stats :
    (s : Sim)
    → ObjectFits s
    → get_all get_zone_stats s.num_zones (put_all put_stats s.zone_stats (table_bytes s))
      ≡ (s.zone_stats, table_bytes s)
read_stats s f = rw (← f.stats_counted) (
    get_all-put StatsFit put_stats get_zone_stats get_zone_stats-put s.zone_stats (table_bytes s)
      f.stats_fit)

read_table :
    (s : Sim)
    → ObjectFits s
    → get_all get_zone (length (table_bytes s) / 24) (table_bytes s)
      ≡ (s.zone_status, put 4 magic_word [])
read_table s f = rw (table_room s) (
    get_all-put ZoneFits put_zone get_zone get_zone-put s.zone_status (put 4 magic_word [])
      f.zones_fit)

pub read_object-bytes :
    (s t : Sim) → ObjectFits s → read_object (object_bytes s) t ≡ with_object t s
unfolding read_object object_bytes body_bytes
read_object-bytes s t f =
    rw
      (
        get_header-put s.header _ f.header_fits,
        get_config-put s.dev_config _ f.config_fits,
        get_idle-put s.idle_stats _ f.idle_fits,
        get-put 4 s.num_zones _ f.num_fits,
        read_stats s f,
        read_table s f,
      )
      refl

-- The words of the header.
le32-put : (x : ℕ) (rest : List ℕ) → x < 2 ^ 32 → le32 (put 4 x rest) 0 ≡ x
unfolding le32 put
le32-put x rest h = omega arith

pub magic-object : (s : Sim) → ObjectFits s → magic_of (object_bytes s) ≡ s.header.magic
unfolding object_bytes put_header
magic-object s f = le32-put s.header.magic _ f.header_fits.magic_fits

pub length-object : (s : Sim) → ObjectFits s → length_of (object_bytes s) ≡ s.header.length
unfolding object_bytes put_header le32 put
length-object s f = omega (arith, f.header_fits.length_fits)

pub crc-object : (s : Sim) → ObjectFits s → crc_field (object_bytes s) ≡ s.header.crc32
unfolding object_bytes put_header le32 put
crc-object s f = omega (arith, f.header_fits.crc_fits)

pub drop-object : (s : Sim) → drop 16 (object_bytes s) ≡ body_bytes s
unfolding object_bytes put_header put
drop-object s = refl

pub size-object : (s : Sim) → ObjectFits s → length (object_bytes s) ≡ 44 * s.num_zones + 44
unfolding object_bytes
size-object s f = omega (arith, length-put_header s.header (body_bytes s), length-body s f)
