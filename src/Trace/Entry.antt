-- ===== src/Trace/Entry.antt =====
-- smrsim_trace.h: the tracepoints of requests. An entry has the fields of TP_STRUCT__entry, assigned
-- as in TP_fast_assign; a text goes into 128 bytes, and those that the code passes are shorter.
use Prim.Native.String.{String}
use smr_simulator.Base.{ℕ}
use smr_simulator.Types.{Code, Dir}

pub data Entry : Type 0 where
  block_io_evt : String → ℕ → ℕ → Dir → Entry
  zone_write_evt : ℕ → ℕ → ℕ → Entry
  zone_read_evt : ℕ → ℕ → Entry
  bio_read_check_evt bio_write_check_evt : String → ℕ → Code → Entry
  bio_oop_read_check_evt bio_oop_write_check_evt : String → ℕ → ℕ → Code → Entry
