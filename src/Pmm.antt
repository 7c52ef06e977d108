-- ===== src/Pmm.antt =====
-- kernel/pmm.c: physical regions, page tables, virtual pages and the kernel heap.
pub mod Regions
pub mod Paging
pub mod Virtual
pub mod Heap
pub mod Print
