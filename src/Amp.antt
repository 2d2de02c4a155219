-- ===== src/Amp.antt =====
-- amplifier/amplifier.c and tfa.c: the audio amplifier.
pub mod Tfa
pub mod Hal
pub mod Opening
pub mod Clock
pub mod Returning
pub mod Switching
pub mod Counting
pub mod Results
pub mod Holding
mod Tests
