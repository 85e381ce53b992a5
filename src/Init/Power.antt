-- ===== src/Init/Power.antt =====
-- dm-smrsim.c, index_power_of_2: the loop computes the logarithm of a power of two.
use native.Mathlib.Nat.{two-pow-succ, one-le-pow}
use smr_simulator.Base.{ℕ, zero, suc, ◌+◌, ◌/◌, ◌^◌, ◌≡◌, ◌<◌, ◌≤◌, arith}
use smr_simulator.Init.{index_loop, index_power_of_2}

pub pow_pos : (k : ℕ) → 1 ≤ 2 ^ k
pow_pos k = one-le-pow k 2 (omega arith)

index_loop-pow : (fuel k index : ℕ) → k < fuel → index_loop fuel (2 ^ k) index ≡ index + k
unfolding index_loop
index_loop-pow zero k index h = absurd (omega arith)
index_loop-pow (suc fuel) zero index h = ground arith
index_loop-pow (suc fuel) (suc k) index h =
    let halved : 2 ^ suc k / 2 ≡ 2 ^ k = omega (arith, two-pow-succ k) in
    let rest : index_loop fuel (2 ^ suc k / 2) (index + 1) ≡ index + suc k =
      rw halved (omega (arith, index_loop-pow fuel k (index + 1) (omega arith))) in
    ground (arith, two-pow-succ k, pow_pos k, halved, rest)

-- For a power of two that fits a __u64 the loop returns the exponent.
pub index_power_of_2-pow : (k : ℕ) → k < 64 → index_power_of_2 (2 ^ k) ≡ k
unfolding index_power_of_2
index_power_of_2-pow k h = omega (arith, index_loop-pow 64 k 0 h)
