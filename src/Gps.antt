-- ===== src/Gps.antt =====
-- GPSWork.h and GPSWork.cpp: the thread that reads the GPS service, and the data that it keeps.
pub mod Worker
pub mod Session
pub mod Data
pub mod Reading
pub mod Shared
pub mod Inside
pub mod Entries
pub mod Snapshots
mod Runs
mod Tests
