-- ===== src/Daemon.antt =====
-- JsCPPUtils/Daemon.h and Daemon.cpp: the command line, the group file, and the life of the process.
pub mod Args
pub mod Settings
pub mod Groups
pub mod Tokens
pub mod Members
pub mod Written
pub mod Run
pub mod Privileges
pub mod Signals
mod Tests
