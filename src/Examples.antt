-- ===== src/Examples.antt =====
-- Runs of the program's parts on concrete inputs, one module per part.
pub mod Codecs
pub mod Devices
pub mod Packets
pub mod Sending
pub mod Commands
pub mod Sensors
pub mod Storage
pub mod Channels
pub mod Updates
pub mod Transfers
