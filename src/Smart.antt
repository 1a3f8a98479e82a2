-- ===== src/Smart.antt =====
-- JsCPPUtils/SmartPointer.h and SmartPointerNTS.h: counted pointers.
pub mod Runs
pub mod Defs
pub mod Counting
pub mod Handles
pub mod Threads
pub mod Steps
pub mod Sharing
pub mod Races
pub mod Transfer
pub mod Nts
pub mod View
pub mod Refinement
pub mod Assignments
pub mod Endings
pub mod Beginnings
pub mod Clients
pub mod Effects
pub mod Kept
pub mod Objects
pub mod Simulation
pub mod Scopes
pub mod Programs
pub mod Replays
mod Lives
mod Tests
