-- ===== src/Ukey.antt =====
-- The key methods that let OpenSSL's SM2 use a token: signing on it, and exporting from it.
pub mod World
pub mod Session
pub mod Method
pub mod Options
