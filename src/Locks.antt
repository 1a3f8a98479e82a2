-- ===== src/Locks.antt =====
-- JsCPPUtils/Lockable.h, LockableEx.h, TSSimpleMap.h and AtomicNum.h: the locks.
-- `Defs` has the classes as one thread sees them, `Threads` the steps of many threads over one
-- `LockableEx`, `Exclusion` what holds in every interleaving, `Atomic` the numbers under a lock.
pub mod Defs
pub mod Threads
pub mod Exclusion
pub mod Balance
pub mod Abstract
pub mod Progress
pub mod Atomic
pub mod Operators
pub mod Tests
