-- ===== src/Kheap/Alloc.antt =====
-- kern/mem/kheap.c: kmalloc and kfree.
pub mod Pages
pub mod Placed
pub mod Freed
pub mod Wrapped
use fos_operational_system_f.Common.{
  ℕ, zero, suc, ◌+◌, ◌-◌, ◌*◌, ◌/◌, ◌%◌, ◌^◌, ◌≤◌, ◌<◌, ◌≡◌, Bool, true, false, not, ◌&&◌, ◌||◌,
  Option, none, some, arith, ◌==◌, ltb, leb, if◌then◌else◌, update,
}
use fos_operational_system_f.Common.Outcome.{Outcome, ok, panic, fault, ◌>>=◌}
use fos_operational_system_f.Mmu.{page_size}
use fos_operational_system_f.Kheap.State.{
  Kheap, Run, Allocated, kernel_heap_start, kernel_heap_max, dyn_alloc_max_block_size, kva_to_index,
  pages_of, get_page, return_page,
}
use fos_operational_system_f.Kheap.Fit.{find_customfit}

-- The dynamic allocator of lib/, which is no part of the sources: what the heap calls of it.
pub record BlockAllocator : Type 0 where
  pub alloc_block : ℕ → Kheap → Allocated
  pub free_block : ℕ → Kheap → Run
  pub realloc_block : ℕ → ℕ → Kheap → Allocated
  pub get_block_size : ℕ → Kheap → ℕ

unfoldable pub get_pages : ℕ → ℕ → Kheap → Run
get_pages zero va h = ok h
get_pages (suc n) va h = get_page va h >>= get_pages n ((va + page_size) % 2 ^ 32)

unfoldable pub return_pages : ℕ → ℕ → Kheap → Kheap
return_pages zero va h = h
return_pages (suc n) va h = return_pages n ((va + page_size) % 2 ^ 32) (return_page va h)

-- The page allocations of kmalloc: where find_customfit finds room, or else at the break.
-- A search that does not end is a fault. The sum with the break does not wrap after kmalloc's
-- first test.
unfoldable pub kmalloc_pages : ℕ → ℕ → Kheap → Allocated
kmalloc_pages size n h = elim (find_customfit h n) [
  | none ↦ fault
  | some zero ↦
      if ltb kernel_heap_max (h.page_alloc_break + n * page_size)
      then ok (0, h)
      else (let va = h.page_alloc_break in
          get_pages n va (record h { page_alloc_break = h.page_alloc_break + n * page_size })
          >>= λ g. ok (
            va,
            record g { kallocation_sizes = update g.kallocation_sizes (kva_to_index va) size },
          ))
  | some (suc v) ↦ get_pages n (suc v) h >>= λ g. ok (
    suc v,
    record g { kallocation_sizes = update g.kallocation_sizes (kva_to_index (suc v)) size },
  )
]

unfoldable pub kmalloc : BlockAllocator → ℕ → Kheap → Allocated
kmalloc d size h =
    let n = pages_of size in
    if (size == 0) || ltb (kernel_heap_max - h.page_alloc_break) (n * page_size)
    then ok (0, h)
    else if leb size dyn_alloc_max_block_size
    then d.alloc_block size h
    else kmalloc_pages size n h

-- The loop of kfree that takes the break down over pages that are not present.
unfoldable pub lower_break : ℕ → Kheap → Kheap
lower_break zero h = h
lower_break (suc fuel) h =
    elim (ltb h.page_alloc_start h.page_alloc_break
      && not (h.present ((h.page_alloc_break - page_size) / page_size))) [
        | false ↦ h
        | true ↦ lower_break fuel (record h { page_alloc_break = h.page_alloc_break - page_size })
      ]

unfoldable pub kfree_pages : ℕ → ℕ → Kheap → Kheap
kfree_pages va size h =
    let g = return_pages (pages_of size) va h in
    lower_break ((h.page_alloc_break - h.page_alloc_start) / page_size)
      (record g { kallocation_sizes = update g.kallocation_sizes (kva_to_index va) 0 })

unfoldable pub kfree : BlockAllocator → ℕ → Kheap → Run
kfree d va h =
    let size = h.kallocation_sizes (kva_to_index va) in
    if ltb va kernel_heap_start || leb kernel_heap_max va
    then ok h
    else if size == 0
    then ok h
    else if leb size dyn_alloc_max_block_size
    then d.free_block va h
    else ok (kfree_pages va size h)
