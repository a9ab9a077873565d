-- ===== src/Elfmalloc.antt =====
-- The crate elfmalloc: the sources of memory that its allocators share, the reference count of a
-- slag, the free of an object, the size classes, the general allocator, and its arrays.
pub mod Sources
pub mod RefCount
pub mod SizeClass
pub mod Slag
pub mod General
pub mod Arrays
mod Tests
