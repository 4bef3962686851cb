-- ===== src/Wayland.antt =====
-- The Wayland library that K1OS builds and installs: packages/wayland/build/src.
pub mod Array
pub mod Cyclic
pub mod Block
pub mod IdMap
pub mod Links
pub mod Ring
pub mod Shm
pub mod Signature
pub mod Word
pub mod Closure
pub mod Connection
mod Tests
