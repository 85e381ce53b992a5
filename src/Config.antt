-- ===== src/Config.antt =====
-- dm-smrsim.c: the functions that a user or another module calls to configure the device.
pub mod Device
pub mod Zones
pub mod Stats
pub mod Research
pub mod Keeps
pub mod Task
