-- ===== src/Kheap/Alloc/Wrapped.antt =====
-- kern/mem/kheap.c: kmalloc at sizes whose rounding up wraps in 32 bits.
use fos_operational_system_f.Common.{ℕ, suc, ◌+◌, ◌*◌, ◌^◌, ◌≤◌, ◌<◌, ◌≡◌, refl, subst, some, arith}
use fos_operational_system_f.Common.Outcome.{ok}
use fos_operational_system_f.Mmu.{page_size, roundup, rounddown}
use fos_operational_system_f.Kheap.State.{
  Kheap, kernel_heap_max, kva_to_index, pages_of, kheap_pages_count,
}
use fos_operational_system_f.Kheap.Fit.{Best, find_customfit, customfit_loop, choose}
use fos_operational_system_f.Kheap.Alloc.{BlockAllocator, get_pages, kmalloc}
use fos_operational_system_f.Kheap.Alloc.Placed.{record_size, kmalloc_pages-break}

pages_of-wrapped : (size : ℕ) → 0xFFFFF000 < size → size < 2 ^ 32 → pages_of size ≡ 0
unfolding pages_of roundup rounddown
pages_of-wrapped size lo hi = omega arith

no_pages : (va : ℕ) (h : Kheap) → get_pages 0 va h ≡ ok h
unfolding get_pages
no_pages va h = refl

customfit_end :
    (fuel n va : ℕ) (h : Kheap) (c : Best)
    → h.page_alloc_break ≤ va
    → customfit_loop (suc fuel) h n va c ≡ some c
unfolding customfit_loop
customfit_end fuel n va h c le = ground arith

abbrev best : Best
best = record { first_exact_va = 0; worst_va = 0; worst_size = 0 }

choose-best : choose 0 best ≡ 0
unfolding choose
choose-best = refl

find-empty : (h : Kheap) → h.page_alloc_break ≡ h.page_alloc_start → find_customfit h 0 ≡ some 0
unfolding find_customfit
find-empty h e =
    let q : customfit_loop (kheap_pages_count + 1) h 0 h.page_alloc_start best ≡ some best =
      customfit_end kheap_pages_count 0 h.page_alloc_start h best (omega (arith, e)) in
    ground (arith, q, choose-best)

-- On a heap whose page area is empty, with the break at most KERNEL_HEAP_MAX, a request of more
-- than 0xFFFFF000 bytes succeeds: its size is rounded up to no pages, kmalloc returns the break,
-- and all it changes is to record the size there. No page is mapped and the break does not move.
pub kmalloc-wrapped :
    (size : ℕ) (h : Kheap) (d : BlockAllocator)
    → 0xFFFFF000 < size
    → size < 2 ^ 32
    → h.page_alloc_break ≡ h.page_alloc_start
    → h.page_alloc_break ≤ kernel_heap_max
    → kmalloc d size h
      ≡ ok (h.page_alloc_break, record_size (kva_to_index h.page_alloc_break) size h)
unfolding kmalloc
kmalloc-wrapped size h d lo hi e le =
    let z = pages_of-wrapped size lo hi in
    let up : h.page_alloc_break ≡ h.page_alloc_break + 0 * page_size = omega arith in
    let q = kmalloc_pages-break size 0 h h (find-empty h e) (omega arith) (
      subst (λ b. get_pages 0 h.page_alloc_break (record h { page_alloc_break = b }) ≡ ok h) up
        (no_pages h.page_alloc_break h)) in
    ground (arith, z, q)
