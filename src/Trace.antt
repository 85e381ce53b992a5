-- ===== src/Trace.antt =====
-- source/smrsim_kmod/smrsim_trace.h: the entries that the tracepoints of requests in dm-smrsim.c
-- write to the trace of the kernel.
pub mod Entry
pub mod Request
pub mod Told
pub mod Host
