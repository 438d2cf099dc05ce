-- ===== src/Tls.antt =====
-- The TLS client's connection: its certificates, its handshake and what it keeps open.
pub mod World
pub mod Connect
pub mod Client
