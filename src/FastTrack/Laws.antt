-- ===== src/FastTrack/Laws.antt =====
-- What is proved of the FastTrack cipher.
pub mod Stream
pub mod Packet
pub mod Sort
pub mod Pads
pub mod Valid
pub mod Table
pub mod Start
pub mod Number
pub mod Product
pub mod Reduce
pub mod Bytes
pub mod InRange
pub mod Estimate
