-- ===== src/FastTrack.antt =====
-- The FastTrack cipher of src/networks/fasttrack.
pub mod Mix
pub mod Mix2
pub mod Flow
pub mod Waves
pub mod Mix20
pub mod Mix80
pub mod Seed
pub mod Cipher
pub mod Checked
pub mod Big
pub mod Init
pub mod Packets
pub mod Laws
mod Examples
