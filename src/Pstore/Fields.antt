-- ===== src/Pstore/Fields.antt =====
-- Reading the bytes of the structures, for fields that fit their words.
use smr_simulator.Base.{ℕ, ◌+◌, ◌^◌, ◌≡◌, ◌<◌, arith, refl, List, length}
use smr_simulator.Types.{ZoneStatus, ZoneStats, IdleStats, DevConfig, StateHeader}
use smr_simulator.Pstore.Codec.{
  get-put, length-put, put_header, put_config, put_idle, put_stats, put_zone, get_header,
  get_config, get_idle, get_zone_stats, get_zone,
}

pub record HeaderFits (h : StateHeader) : Type 0 where
  pub magic_fits : h.magic < 2 ^ 32
  pub length_fits : h.length < 2 ^ 32
  pub version_fits : h.version < 2 ^ 32
  pub crc_fits : h.crc32 < 2 ^ 32

pub record ConfigFits (c : DevConfig) : Type 0 where
  pub read_fits : c.out_of_policy_read_flag < 2 ^ 32
  pub write_fits : c.out_of_policy_write_flag < 2 ^ 32
  pub r_time_fits : c.r_time_to_rmw_zone < 2 ^ 16
  pub w_time_fits : c.w_time_to_rmw_zone < 2 ^ 16

pub record IdleFits (s : IdleStats) : Type 0 where
  pub max_fits : s.dev_idle_time_max < 2 ^ 32
  pub min_fits : s.dev_idle_time_min < 2 ^ 32

pub record StatsFit (z : ZoneStats) : Type 0 where
  pub beyond_fits : z.beyond_swp_count < 2 ^ 32
  pub read_span_fits : z.read_span_zones_count < 2 ^ 32
  pub not_on_fits : z.not_on_swp_count < 2 ^ 32
  pub write_span_fits : z.write_span_zones_count < 2 ^ 32
  pub unaligned_fits : z.unaligned_count < 2 ^ 32

pub record ZoneFits (z : ZoneStatus) : Type 0 where
  pub start_fits : z.z_start < 2 ^ 64
  pub z_length_fits : z.z_length < 2 ^ 32
  pub wp_fits : z.z_write_ptr_offset < 2 ^ 32
  pub checkpoint_fits : z.z_checkpoint_offset < 2 ^ 32
  pub conds_fits : z.z_conds < 2 ^ 16
  pub type_fits : z.z_type < 2 ^ 8
  pub flag_fits : z.z_flag < 2 ^ 8

pub get_header-put :
    (h : StateHeader) (rest : List ℕ) → HeaderFits h → get_header (put_header h rest) ≡ (h, rest)
unfolding get_header put_header
get_header-put h rest f =
    rw
      (
        get-put 4 h.magic _ f.magic_fits,
        get-put 4 h.length _ f.length_fits,
        get-put 4 h.version _ f.version_fits,
        get-put 4 h.crc32 rest f.crc_fits,
      )
      refl

pub get_config-put :
    (c : DevConfig) (rest : List ℕ) → ConfigFits c → get_config (put_config c rest) ≡ (c, rest)
unfolding get_config put_config
get_config-put c rest f =
    rw
      (
        get-put 4 c.out_of_policy_read_flag _ f.read_fits,
        get-put 4 c.out_of_policy_write_flag _ f.write_fits,
        get-put 2 c.r_time_to_rmw_zone _ f.r_time_fits,
        get-put 2 c.w_time_to_rmw_zone rest f.w_time_fits,
      )
      refl

pub get_idle-put :
    (s : IdleStats) (rest : List ℕ) → IdleFits s → get_idle (put_idle s rest) ≡ (s, rest)
unfolding get_idle put_idle
get_idle-put s rest f =
    rw (get-put 4 s.dev_idle_time_max _ f.max_fits, get-put 4 s.dev_idle_time_min rest f.min_fits)
      refl

pub get_zone_stats-put :
    (z : ZoneStats) (rest : List ℕ) → StatsFit z → get_zone_stats (put_stats z rest) ≡ (z, rest)
unfolding get_zone_stats put_stats
get_zone_stats-put z rest f =
    rw
      (
        get-put 4 z.beyond_swp_count _ f.beyond_fits,
        get-put 4 z.read_span_zones_count _ f.read_span_fits,
        get-put 4 z.not_on_swp_count _ f.not_on_fits,
        get-put 4 z.write_span_zones_count _ f.write_span_fits,
        get-put 4 z.unaligned_count rest f.unaligned_fits,
      )
      refl

pub get_zone-put :
    (z : ZoneStatus) (rest : List ℕ) → ZoneFits z → get_zone (put_zone z rest) ≡ (z, rest)
unfolding get_zone put_zone
get_zone-put z rest f =
    rw
      (
        get-put 8 z.z_start _ f.start_fits,
        get-put 4 z.z_length _ f.z_length_fits,
        get-put 4 z.z_write_ptr_offset _ f.wp_fits,
        get-put 4 z.z_checkpoint_offset _ f.checkpoint_fits,
        get-put 2 z.z_conds _ f.conds_fits,
        get-put 1 z.z_type _ f.type_fits,
        get-put 1 z.z_flag rest f.flag_fits,
      )
      refl

pub length-put_header :
    (h : StateHeader) (rest : List ℕ) → length (put_header h rest) ≡ 16 + length rest
unfolding put_header
length-put_header h rest =
    rw (length-put 4 h.magic, length-put 4 h.length, length-put 4 h.version, length-put 4 h.crc32)
      (omega arith)

pub length-put_config :
    (c : DevConfig) (rest : List ℕ) → length (put_config c rest) ≡ 12 + length rest
unfolding put_config
length-put_config c rest =
    rw
      (
        length-put 4 c.out_of_policy_read_flag,
        length-put 4 c.out_of_policy_write_flag,
        length-put 2 c.r_time_to_rmw_zone,
        length-put 2 c.w_time_to_rmw_zone,
      )
      (omega arith)

pub length-put_idle : (s : IdleStats) (rest : List ℕ) → length (put_idle s rest) ≡ 8 + length rest
unfolding put_idle
length-put_idle s rest =
    rw (length-put 4 s.dev_idle_time_max, length-put 4 s.dev_idle_time_min) (omega arith)

pub length-put_stats :
    (z : ZoneStats) (rest : List ℕ) → length (put_stats z rest) ≡ 20 + length rest
unfolding put_stats
length-put_stats z rest =
    rw
      (
        length-put 4 z.beyond_swp_count,
        length-put 4 z.read_span_zones_count,
        length-put 4 z.not_on_swp_count,
        length-put 4 z.write_span_zones_count,
        length-put 4 z.unaligned_count,
      )
      (omega arith)

pub length-put_zone : (z : ZoneStatus) (rest : List ℕ) → length (put_zone z rest) ≡ 24 + length rest
unfolding put_zone
length-put_zone z rest =
    rw
      (
        length-put 8 z.z_start,
        length-put 4 z.z_length,
        length-put 4 z.z_write_ptr_offset,
        length-put 4 z.z_checkpoint_offset,
        length-put 2 z.z_conds,
        length-put 1 z.z_type,
        length-put 1 z.z_flag,
      )
      (omega arith)
