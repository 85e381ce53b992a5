-- ===== src/Pstore/Codec.antt =====
-- The bytes of the structures of smrsim_types.h: their fields little-endian and packed, in the
-- order of their declarations. `put k x rest` has the `k` bytes of `x` before `rest`; `get k` takes
-- them back.
use native.Mathlib.Nat.{pow-succ'}
use smr_simulator.Base.{
  ℕ, zero, suc, ◌+◌, ◌*◌, ◌/◌, ◌%◌, ◌^◌, ◌≡◌, ◌<◌, arith, refl, List, [], ◌∷◌, length,
}
use smr_simulator.Types.{ZoneStatus, ZoneStats, IdleStats, DevConfig, StateHeader}

unfoldable pub put : ℕ → ℕ → List ℕ → List ℕ
put zero x rest = rest
put (suc k) x rest = (x % 256) ∷ put k (x / 256) rest

-- A byte past the end is 0.
unfoldable pub get : ℕ → List ℕ → ℕ × List ℕ
get zero xs = (0, xs)
get (suc k) [] = (0, [])
get (suc k) (b ∷ xs) = let (x, rest) = get k xs in (b + 256 * x, rest)

pair : {x y : ℕ} (rest : List ℕ) → x ≡ y → ◌≡◌ {A = ℕ × List ℕ} (x, rest) (y, rest)
pair rest e = rw e refl

pub get-put : (k x : ℕ) (rest : List ℕ) → x < 256 ^ k → get k (put k x rest) ≡ (x, rest)
unfolding get put
get-put zero x rest h = pair rest (omega (arith, h))
get-put (suc k) x rest h =
    rw (get-put k (x / 256) rest (omega (arith, pow-succ' 256 k))) (pair rest (omega arith))

pub length-put : (k x : ℕ) (rest : List ℕ) → length (put k x rest) ≡ k + length rest
unfolding put
length-put zero x rest = omega arith
length-put (suc k) x rest = omega (arith, length-put k (x / 256) rest)

unfoldable pub put_header : StateHeader → List ℕ → List ℕ
put_header h rest = put 4 h.magic (put 4 h.length (put 4 h.version (put 4 h.crc32 rest)))

unfoldable pub put_config : DevConfig → List ℕ → List ℕ
put_config c rest = put 4 c.out_of_policy_read_flag (
    put 4 c.out_of_policy_write_flag (put 2 c.r_time_to_rmw_zone (put 2 c.w_time_to_rmw_zone rest)))

unfoldable pub put_idle : IdleStats → List ℕ → List ℕ
put_idle s rest = put 4 s.dev_idle_time_max (put 4 s.dev_idle_time_min rest)

unfoldable pub put_stats : ZoneStats → List ℕ → List ℕ
put_stats z rest = put 4 z.beyond_swp_count (
    put 4 z.read_span_zones_count
      (put 4 z.not_on_swp_count (put 4 z.write_span_zones_count (put 4 z.unaligned_count rest))))

unfoldable pub put_zone : ZoneStatus → List ℕ → List ℕ
put_zone z rest = put 8 z.z_start (
    put 4 z.z_length (
      put 4 z.z_write_ptr_offset
        (put 4 z.z_checkpoint_offset (put 2 z.z_conds (put 1 z.z_type (put 1 z.z_flag rest))))))

unfoldable pub get_header : List ℕ → StateHeader × List ℕ
get_header xs =
    let (magic, xs₁) = get 4 xs in
    let (len, xs₂) = get 4 xs₁ in
    let (version, xs₃) = get 4 xs₂ in
    let (crc, xs₄) = get 4 xs₃ in
    (record { magic = magic; length = len; version = version; crc32 = crc }, xs₄)

unfoldable pub get_config : List ℕ → DevConfig × List ℕ
get_config xs =
    let (read, xs₁) = get 4 xs in
    let (write, xs₂) = get 4 xs₁ in
    let (r_time, xs₃) = get 2 xs₂ in
    let (w_time, xs₄) = get 2 xs₃ in
    (
      record {
        out_of_policy_read_flag = read;
        out_of_policy_write_flag = write;
        r_time_to_rmw_zone = r_time;
        w_time_to_rmw_zone = w_time;
      },
      xs₄,
    )

unfoldable pub get_idle : List ℕ → IdleStats × List ℕ
get_idle xs =
    let (longest, xs₁) = get 4 xs in
    let (shortest, xs₂) = get 4 xs₁ in
    (record { dev_idle_time_max = longest; dev_idle_time_min = shortest }, xs₂)

unfoldable pub get_zone_stats : List ℕ → ZoneStats × List ℕ
get_zone_stats xs =
    let (beyond, xs₁) = get 4 xs in
    let (read_span, xs₂) = get 4 xs₁ in
    let (not_on, xs₃) = get 4 xs₂ in
    let (write_span, xs₄) = get 4 xs₃ in
    let (unaligned, xs₅) = get 4 xs₄ in
    (
      record {
        beyond_swp_count = beyond;
        read_span_zones_count = read_span;
        not_on_swp_count = not_on;
        write_span_zones_count = write_span;
        unaligned_count = unaligned;
      },
      xs₅,
    )

unfoldable pub get_zone : List ℕ → ZoneStatus × List ℕ
get_zone xs =
    let (start, xs₁) = get 8 xs in
    let (len, xs₂) = get 4 xs₁ in
    let (wp, xs₃) = get 4 xs₂ in
    let (checkpoint, xs₄) = get 4 xs₃ in
    let (conds, xs₅) = get 2 xs₄ in
    let (kind, xs₆) = get 1 xs₅ in
    let (flag, xs₇) = get 1 xs₆ in
    (
      record {
        z_start = start;
        z_length = len;
        z_write_ptr_offset = wp;
        z_checkpoint_offset = checkpoint;
        z_conds = conds;
        z_type = kind;
        z_flag = flag;
      },
      xs₇,
    )
