-- ===== src/Lcd.antt =====
-- I2CLCD.h and I2CLCD.cpp: the character display behind an 8-bit port expander on the bus.
-- `Defs` has the class, `Panel` the controller at the other end of the bus.
pub mod Defs
pub mod Panel
pub mod Wire
pub mod Typing
pub mod Screen
pub mod Opened
pub mod Resync
pub mod Init
pub mod Faults
pub mod Light
mod Tests
