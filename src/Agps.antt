-- ===== src/Agps.antt =====
-- gps/loc_api/libloc_api_50001/loc_eng_agps.cpp and .h: the state machines of the assisted-GPS
-- data connection (NIF) and their subscribers.
pub mod Subscriber
pub mod Machine
pub mod Notify
pub mod States
pub mod Api
pub mod Told
pub mod Pass
pub mod Frame
pub mod Lists
pub mod Dispatch
pub mod Asking
pub mod Requests
pub mod Retries
pub mod Deletion
pub mod Resubscribe
mod Tests
pub mod Invariant
pub mod Reachable
