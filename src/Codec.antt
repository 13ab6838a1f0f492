-- ===== src/Codec.antt =====
-- The conversions of lib/lib.cpp that carry data between the registers, the frames and the
-- record log: checksums, BCD, byte order and hexadecimal text.
pub mod Crc
pub mod Bcd
pub mod Order
pub mod Hex
pub mod Number
pub mod Search
pub mod Text
