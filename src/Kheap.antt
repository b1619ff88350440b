-- ===== src/Kheap.antt =====
-- kern/mem/kheap.c: the kernel heap.
pub mod State
pub mod Valid
pub mod Fit
pub mod Alloc
pub mod Realloc
pub mod Examples
