-- ===== src/Lib.antt =====
-- Allocators in Rust: object-specific slab allocators (slab-alloc), a binding of Rust allocators to
-- the C allocation API (malloc-bind), a general allocator (elfmalloc), and an allocator of mappings
-- (mmap-alloc) under them.
--
-- The slab allocator. `Slab/Sized.antt` is `SizedSlabAlloc` of slab-alloc/src/lib.rs: the free list
-- with partial slabs in front of full ones, `alloc`, `dealloc`, the collection of slabs that stayed
-- full for a working period, and `drop`. It stands over the trait `SlabSystem` (`Slab/System.antt`),
-- a record of operations and laws, and over a clock. `Slab/Aligned.antt` is the slab system of
-- slab-alloc/src/stack.rs with the configuration of slab-alloc/src/aligned.rs, over any backing
-- allocator, and `Slab/Aligned/Instance.antt` fills the record with it. Under it lie the layout of a
-- slab (`Slab/Layout.antt`, from `Layout` of slab-alloc/src/stack.rs), the stack of free objects
-- (`Slab/Stack.antt`), the colours of slabs (`Slab/Color.antt`) and the watched minimum of full slabs
-- (`Slab/WorkingSet.antt`), all from slab-alloc/src/util.rs, and the initialisation of objects
-- (`Slab/Init.antt`, from slab-alloc/src/init.rs). There a free list is the sequence of its slabs;
-- `Slab/Links.antt` is the linked list of slab-alloc/src/util.rs itself, with its pointers, against the
-- sequence. `Slab/PtrMap.antt` is the hash table of slab-alloc/src/ptr_map.rs that finds the slab of an
-- object: chains of buckets, which growing splits and shrinking joins; `Slab/Large.antt` is `ConfigData`
-- of slab-alloc/src/large.rs, which keeps the pages or the objects of the slabs in it.
--
-- The C API. `Malloc.antt` has the functions `c_malloc` to `c_realloc` of malloc-bind/src/lib.rs for
-- 64-bit Linux, over any allocator that keeps the documentation of the trait `Alloc`
-- (`Malloc/Interface.antt`), with the layout finder as a table. The allocator may refuse any layout as
-- unsupported, where the code aborts.
--
-- The memory sources. `Elfmalloc/Sources.antt` is elfmalloc/src/sources.rs: `MmapSource`, which trims a
-- mapping to an aligned block, and `Creek`, which hands out pages by a shared counter. Calls of several
-- threads are the sequence in which their atomic additions happen.
--
-- The reference count and the size classes. `Elfmalloc/RefCount.antt` is the word of a slag's reference
-- count with its claim bit, `RefCount` of elfmalloc/src/slag.rs; `Elfmalloc/Slag.antt` is `Slag::free` of
-- that file, with the way from an object to its slag and to its bit; `Elfmalloc/SizeClass.antt` has the
-- maps from sizes to classes of elfmalloc/src/general.rs: `Multiples`, `PowersOfTwo` and
-- `TieredSizeClasses`.
--
-- The general allocator. `Elfmalloc/General.antt` is `ElfMalloc` with `large_alloc`, both of
-- elfmalloc/src/general.rs: the dispatch of `alloc` and `free` to a class or to a mapping of its own.
-- The allocators of the classes are a record with what the module's documentation says of the pages of
-- their objects; the mappings of large objects come from `MmapSource`. `Elfmalloc/Arrays.antt` is the
-- module `mmap` and `TypedArray` of elfmalloc/src/utils.rs, on the mappings described next.
--
-- Mappings. `Mmap.antt` is mmap-alloc/src/lib.rs on 64-bit Linux; `Mmap/System.antt` states what the
-- system calls do, as their manual pages document them, to a table of mappings with their numbers of
-- pages, where a mapping is named by its address. `Mmap/Backing.antt` makes of it a backing allocator
-- for the slabs of `Slab/Aligned.antt`. `MapAlloc` refuses alignments above a page as unsupported.
--
-- The bootstrap allocator. `Bsalloc.antt` is bsalloc/src/bsalloc.rs: two caches of blocks, shared by
-- threads through atomic swaps, in front of the model of mmap-alloc. A history is a sequence of calls and
-- of single steps of the threads, so that swaps of several calls interleave in every way; the swaps are
-- relaxed, but each thread hands on only addresses that it swapped out.
--
-- Words have 64 bits, and the arithmetic of the code wraps where it is not shown to stay in bounds; a
-- sum above a word in the search for the layout of a slab is `panic`, as with overflow checks. The
-- counters of slabs and objects are natural numbers without an upper bound, and a decrement of 0 is
-- `panic`; pointers do not wrap. Loops without a
-- structural bound run on fuel: the search for the number of objects of a slab has one round more than
-- the slab has bytes, each of which takes eight bytes of stack; the search for a heap has 12 rounds, for
-- 11 sizes; the search for the next vacant slot of a chain has a round for every slot up to the one
-- just freed; the next power of two and the trailing zeros of a word have 64. A panic, an abort, or a read
-- of what is not there is `panic`.
--
-- Not modelled: the builders and the choice between aligned and large slabs, the slab system with large slabs, the rest
-- of the slag, the front ends and the reallocation of elfmalloc, bagpipe, and the reallocation of bsalloc; commit and uncommit
-- of mmap-alloc, and what it does on other systems; printing (alloc-fmt) and thread-local slots
-- (alloc-tls), which are platform machinery; tests and benchmarks.
pub mod Base
pub mod Slab
pub mod Malloc
pub mod Elfmalloc
pub mod Mmap
pub mod Bsalloc
