-- ===== src/Gvar.antt =====
-- The decoder of GVAR blocks in src/libgvar: bytes and words as numbers, an array as a list.
pub mod Unpack
pub mod Time
pub mod LineDoc
pub mod Lines
pub mod Header
pub mod Block
