-- ===== src/Base.antt =====
-- Shared notation, word arithmetic and lemmas of the development.
pub mod Logic
pub mod Lists
pub mod Shared
pub mod Int
pub mod Bits
pub mod Digits
pub mod Word
pub mod Signed
