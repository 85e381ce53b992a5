-- ===== src/Rules.antt =====
-- dm-smrsim.c, smrsim_log_error, smrsim_write_rule_check and smrsim_read_rule_check: the checks
-- that a request meets, and what they do to the zones.
pub mod Log
pub mod Write
pub mod Read
pub mod Aims
pub mod Frame
pub mod Total
pub mod WriteTotal
pub mod HostWrite
pub mod HostRead
pub mod HostConventional
pub mod Border
