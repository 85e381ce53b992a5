-- ===== src/Types/Cond.antt =====
-- source/smrsim_kmod/smrsim_types.h: `enum smrsim_zone_conditions`; `z_conds` is a __u16 that a
-- caller may set to any value.
use Prim.Native.Nat.{ℕ}

abbrev pub no_wp : ℕ
no_wp = 0x00

abbrev pub empty : ℕ
empty = 0x01

abbrev pub closed : ℕ
closed = 0x04

abbrev pub read_only : ℕ
read_only = 0x0D

abbrev pub full : ℕ
full = 0x0E

abbrev pub offline : ℕ
offline = 0x0F
