-- ===== src/Ipc.antt =====
-- Shared memory and semaphores among processes: src/include/cppev/ipc.h and src/lib/ipc.cc.
pub mod Opening
pub mod Counting
pub mod Sample
mod Tests
