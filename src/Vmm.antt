-- ===== src/Vmm.antt =====
-- kernel/src/vmm: Sv39 addresses, page table entries and page tables.
pub mod Vaddr
pub mod Pte
pub mod Memory
pub mod Paging
pub mod Translate
pub mod Copy
