-- ===== src/Engine.antt =====
-- gps/loc_api/libloc_api_50001/loc_eng.cpp: the engine's session, its reports, and what a restart of
-- the modem does.
pub mod Servers
pub mod Session
pub mod Reports
pub mod Restart
pub mod Emitting
pub mod Resending
pub mod Muting
pub mod Navigating
pub mod Recovery
mod Tests
