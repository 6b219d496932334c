-- ===== src/Locks.antt =====
-- Locks among processes, of src/include/cppev/lock.h and src/lib/lock.cc: pshared_rwlock with
-- rdlockguard and wrlockguard, pshared_one_time_fence, spinlock, pshared_lock and pshared_cond.
pub mod Fence
pub mod Guards
pub mod Exclusive
pub mod Mutex
pub mod Spinlock
pub mod Condition
pub mod Sample
mod Tests
