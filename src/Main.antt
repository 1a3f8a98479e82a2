-- ===== src/Main.antt =====
-- main.cpp and JsCPPUtils/Common.cpp: what the main loop puts on the display, and when.
pub mod Lines
pub mod Peers
pub mod Console
pub mod Columns
pub mod Loop
pub mod Lengths
pub mod Shown
pub mod Run
pub mod Turns
pub mod Expected
pub mod Display
pub mod Attached
pub mod Outages
pub mod Ending
pub mod Process
pub mod Cases
mod Lives
mod Tests
