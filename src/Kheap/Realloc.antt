-- ===== src/Kheap/Realloc.antt =====
-- kern/mem/kheap.c: krealloc.
pub mod Shrunk
pub mod Moved
use fos_operational_system_f.Common.{
  ℕ, zero, suc, ◌+◌, ◌-◌, ◌*◌, ◌/◌, ◌%◌, ◌^◌, ◌≤◌, ◌<◌, ◌≡◌, Bool, true, false, not, ◌&&◌, ◌||◌,
  arith, ◌==◌, ltb, leb, if◌then◌else◌, update,
}
use fos_operational_system_f.Common.Outcome.{Outcome, ok, panic, fault, ◌>>=◌}
use fos_operational_system_f.Mmu.{page_size}
use fos_operational_system_f.Kheap.State.{
  Kheap, Run, Allocated, kernel_heap_start, kernel_heap_max, dyn_alloc_max_block_size, kva_to_index,
  pages_of, memcpy,
}
use fos_operational_system_f.Kheap.Alloc.{BlockAllocator, get_pages, return_pages, kmalloc, kfree}

-- Allocate by `m`, copy `old_size` bytes and release the old place by `free`.
unfoldable pub move_to : ℕ → ℕ → Allocated → (Kheap → Run) → Kheap → Allocated
move_to va old_size m free h = m >>= λ r. elim (r.0 == 0) [
  | true ↦ ok (0, r.1)
  | false ↦ memcpy r.0 va old_size r.1 >>= free >>= λ g. ok (r.0, g)
]

-- Can the `extra` pages from `va` on be added in place?
unfoldable pub can_extend : ℕ → ℕ → Kheap → Bool
can_extend zero va h = true
can_extend (suc extra) va h =
    if leb kernel_heap_max va
      || leb h.page_alloc_break va
      || not (h.kallocation_sizes (kva_to_index va) == 0)
    then false
    else can_extend extra ((va + page_size) % 2 ^ 32) h

abbrev pub set_size : ℕ → ℕ → Kheap → Kheap
set_size va size h = record h {
  kallocation_sizes = update h.kallocation_sizes (kva_to_index va) size;
}

-- page => page, fewer pages
unfoldable pub shrink_pages : ℕ → ℕ → ℕ → ℕ → Kheap → Kheap
shrink_pages va old_pages new_pages new_size h =
    let g =
      set_size va new_size (return_pages (old_pages - new_pages) (va + new_pages * page_size) h) in
    if va + old_pages * page_size == g.page_alloc_break
    then record g { page_alloc_break = va + new_pages * page_size }
    else g

-- page => page
unfoldable pub realloc_pages : BlockAllocator → ℕ → ℕ → ℕ → Kheap → Allocated
realloc_pages d va old_size new_size h =
    let old_pages = pages_of old_size in
    let new_pages = pages_of new_size in
    let next_va = va + old_pages * page_size in
    if ltb new_pages old_pages
    then ok (va, shrink_pages va old_pages new_pages new_size h)
    else if ltb old_pages new_pages && can_extend (new_pages - old_pages) next_va h
    then (get_pages (new_pages - old_pages) next_va h >>= λ g. ok (va, set_size va new_size g))
    else move_to va old_size (kmalloc d new_size h) (kfree d va) h

unfoldable pub krealloc : BlockAllocator → ℕ → ℕ → Kheap → Allocated
krealloc d va new_size h =
    let old_is_block = leb kernel_heap_start va && ltb va h.dyn_alloc_end in
    let old_is_page = leb h.page_alloc_start va && ltb va h.page_alloc_break in
    let old_size =
      if old_is_page then h.kallocation_sizes (kva_to_index va) else d.get_block_size va h in
    let new_is_block = leb new_size dyn_alloc_max_block_size in
    if va == 0
    then kmalloc d new_size h
    else if new_size == 0
    then (kfree d va h >>= λ g. ok (0, g))
    else if not (old_is_block || old_is_page)
    then ok (0, h)
    else if old_size == 0
    then ok (0, h)
    else if old_size == new_size
    then ok (va, h)
    else if old_is_block && new_is_block
    then d.realloc_block va new_size h
    else if old_is_block
    then move_to va old_size (kmalloc d new_size h) (d.free_block va) h
    else if new_is_block
    then move_to va old_size (d.alloc_block new_size h) (kfree d va) h
    else realloc_pages d va old_size new_size h
