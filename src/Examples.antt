-- ===== src/Examples.antt =====
-- Concrete runs of the model: a device of four zones, with tests of the operations and an instance
-- of each theorem that has hypotheses.
pub mod Device
pub mod Requests
mod Table
mod Persistence
mod Interface
mod Runs
mod Tool
mod Restart
mod System
mod Trace
