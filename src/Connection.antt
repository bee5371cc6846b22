-- ===== src/Connection.antt =====
-- connection.h and connection.cpp.
pub mod Registry
pub mod Dispatch
pub mod Framing
pub mod Tls
