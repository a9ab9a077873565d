-- ===== src/Slab.antt =====
-- The crate slab-alloc: object-specific slab allocators.
pub mod Color
pub mod WorkingSet
pub mod Init
pub mod Layout
pub mod System
pub mod Stack
pub mod Aligned
pub mod Sized
pub mod Links
pub mod PtrMap
pub mod Large
mod Tests
