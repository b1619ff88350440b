-- ===== src/Frames.antt =====
-- kern/mem/memory_manager.c and kern/mem/paging_helpers.c: frames and page tables.
pub mod State
pub mod Table
pub mod Bits
pub mod Map
pub mod Valid
pub mod Allocated
pub mod Unmapped
pub mod Mapped
pub mod Paged
pub mod Memories
pub mod Examples
pub mod Refines
pub mod Stack
pub mod Doubled
pub mod Stacked
pub mod Guarded
pub mod Tables
pub mod Boot
pub mod Leaked
pub mod UserMem
pub mod Marked
