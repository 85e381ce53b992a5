-- ===== src/Types/Cross.antt =====
-- source/smrsim_kmod/dm-smrsim.c: `enum smrsim_rt_bodr`
use Prim.Native.Nat.{ℕ}

abbrev pub off : ℕ
off = 0x00

abbrev pub seq : ℕ
seq = 0x02

abbrev pub cur : ℕ
cur = 0x04
