-- ===== src/Memory.antt =====
-- kernel/src/memory: the physical memory manager and the paging code.
pub mod Region
pub mod Pmm
pub mod Paging
pub mod Tests
