-- ===== src/Mm.antt =====
-- kernel/src/mm: the memory managers.
pub mod Bitmap
pub mod Heap
pub mod Pmm
pub mod Cow
pub mod Vma
pub mod Swap
pub mod Paging
