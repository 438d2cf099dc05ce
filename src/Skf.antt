-- ===== src/Skf.antt =====
-- The SKF token test program: the function table, the enumerations, and the walk over a token.
pub mod World
pub mod Api
pub mod Names
pub mod Enumerate
pub mod Copies
pub mod Keys
pub mod Main
