-- ===== src/Netc.antt =====
-- The certificate text helpers of the TLS demo client.
pub mod World
pub mod Text
pub mod Issuer
