-- ===== src/Collected.antt =====
-- gc_src/cs.c, the collected space: objects in a memory space, a set of roots, and the collector.
pub mod RootSet
pub mod Objects
pub mod Gc
pub mod Mutator
pub mod Worker
mod Tests
