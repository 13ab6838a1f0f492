-- ===== src/Center.antt =====
-- The commands of the center, app/up/center/center.cpp and app/up/center/center_process.cpp, with the
-- message header of app/up/packet/header.cpp.
pub mod Header
pub mod Commands
pub mod Registers
pub mod Process
pub mod Times
pub mod Guards
