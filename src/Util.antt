-- ===== src/Util.antt =====
-- source/smrsim_util/smrsim_util.c: the command line tool, function by function. A command is run
-- to its end: the device and the lines printed are what it leaves.
pub mod Atoi
pub mod Run
pub mod Log
pub mod Zones
pub mod Stats
pub mod Count
pub mod Add
pub mod Config
pub mod Research
pub mod Main
pub mod ResetZone
pub mod Good
pub mod Reads
pub mod Valid
pub mod AddRound
pub mod AddLoop
pub mod Safety
