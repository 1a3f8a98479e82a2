-- ===== src/Ntp.antt =====
-- ntpqmod.c and ntpqmod.h: one peer of the time server, read and made printable.
pub mod Interval
pub mod Info
pub mod Peer
pub mod Fields
pub mod Poke
pub mod Reference
pub mod Whole
pub mod Asked
pub mod Tests
