-- ===== src/Ota.antt =====
-- main/ota_update.c: firmware upload over HTTP.
pub mod Board
pub mod Scripted
pub mod Flash
pub mod Header
pub mod Host
pub mod Server
mod Tests
