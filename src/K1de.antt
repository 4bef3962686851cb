-- ===== src/K1de.antt =====
-- The display server and console that K1OS boots into: packages/k1de/src.
pub mod Palette
pub mod Terminal
mod Tests
