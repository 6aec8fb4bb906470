-- ===== src/He3.antt =====
-- src/networks/direct_connect/che3_c.c: the Huffman compression HE3 of the file lists of Direct
-- Connect.
pub mod Bits
pub mod Tree
pub mod Encode
pub mod Decode
pub mod Stream
pub mod Written
pub mod Codes
pub mod Queue
pub mod Leaves
pub mod CodeTable
pub mod Layout
pub mod Reading
pub mod Walk
pub mod Coded
pub mod Heavy
pub mod Depth
pub mod Cost
pub mod Text
pub mod Space
pub mod Header
pub mod Errors
pub mod Output
pub mod RoundTrip
pub mod Entries
pub mod Examples
