-- ===== src/Logger.antt =====
-- JsCPPUtils/Logger.h and Logger.cpp: the lines of the log.
pub mod Defs
pub mod Chain
mod Tests
