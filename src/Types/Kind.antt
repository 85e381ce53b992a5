-- ===== src/Types/Kind.antt =====
-- source/smrsim_kmod/smrsim_types.h: `enum smrsim_zone_type`; `z_type` is a __u8.
use Prim.Native.Nat.{ℕ}

abbrev pub conventional : ℕ
conventional = 0x01

abbrev pub sequential : ℕ
sequential = 0x02
