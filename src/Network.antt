-- ===== src/Network.antt =====
-- The sockets: include/networking and src/network. What the kernel does at a call is an argument.
pub mod TcpSocket
pub mod McastSocket
pub mod TcpServer
pub mod Sockets
