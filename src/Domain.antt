-- ===== src/Domain.antt =====
-- Unix domain sockets: sending and receiving, listening and connecting, and the epoll server.
pub mod World
pub mod Transfer
pub mod Wrappers
pub mod Sockets
pub mod Server
