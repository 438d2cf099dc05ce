-- ===== src/Tests.antt =====
-- The theorems at concrete inputs.
mod Libraries
mod Cng
mod Domain
mod Netc
mod Tls
mod Ukey
mod Skf
