-- ===== src/Net.antt =====
-- src/net: the TCP channel between the two parties, and HTTP requests to the nodes.
pub mod Tcp
pub mod Http
