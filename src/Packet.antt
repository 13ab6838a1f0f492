-- ===== src/Packet.antt =====
-- The frames between a station and its centre, app/up/packet/upacket.cpp: the receive buffer's
-- layout, what makes a run of bytes a frame, the encoder and the decoder.
pub mod Frame
pub mod Decode
pub mod Encode
