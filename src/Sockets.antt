-- ===== src/Sockets.antt =====
-- Sockets: the address functions, the options and the calls of nsock, nsocktcp and nsockudp in
-- src/lib/nio.cc. The kernel's options and the text form of addresses are parameters.
pub mod Address
pub mod Options
pub mod Connections
pub mod Local
pub mod Objects
pub mod Datagrams
pub mod Sample
mod Tests
