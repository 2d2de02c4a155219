-- ===== src/Dmn.antt =====
-- gps/loc_api/libloc_api_50001/loc_eng_dmn_conn*: the connection to the GPS daemon.
pub mod Pipe
pub mod Handler
pub mod Server
pub mod Framing
pub mod Overrun
pub mod Unread
pub mod Agreeing
pub mod Ending
mod Tests
