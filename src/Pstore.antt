-- ===== src/Pstore.antt =====
-- dm-smrsim.c: the background task that writes the state to the end of the device.
pub mod Queue
pub mod Task
pub mod Flush
pub mod Round
pub mod Whole
pub mod Spread
pub mod Gap
pub mod Codec
pub mod Fields
pub mod Page
pub mod Object
pub mod Reading
pub mod Load
pub mod Bytes
pub mod RoundTrip
pub mod Segments
