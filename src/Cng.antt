-- ===== src/Cng.antt =====
-- The CNG provider of OpenSSL: provider, key management, store and signature modules.
pub mod World
pub mod Env
pub mod KeyMgmt
pub mod Store
pub mod Signature
pub mod Provider
