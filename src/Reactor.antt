-- ===== src/Reactor.antt =====
-- The reactor: src/include/cppev/tcp.h and src/lib/tcp.cc.
pub mod Balance
pub mod Connect
pub mod Hosts
pub mod Attempts
pub mod Handlers
pub mod Acceptor
mod Threads
pub mod Setup
mod Tests
