-- ===== src/Kheap/Examples.antt =====
-- kern/mem/kheap.c: the heap's theorems at concrete heaps.
use fos_operational_system_f.Common.{
  ◌||◌, ◌/◌, ℕ, ◌+◌, ◌-◌, ◌*◌, ◌≤◌, ◌<◌, ◌≡◌, ◌≢◌, refl, false, not, ◌&&◌, some, arith, ◌==◌, ltb,
  leb, if◌then◌else◌, inl,
}
use fos_operational_system_f.Common.Outcome.{ok}
use fos_operational_system_f.Mmu.{page_size, roundup, rounddown}
use fos_operational_system_f.Kheap.State.{
  Kheap, kernel_heap_start, kernel_heap_max, dyn_alloc_max_size, kva_to_index, pages_of,
}
use fos_operational_system_f.Kheap.Valid.{kva, HeapValid, Room}
use fos_operational_system_f.Kheap.Fit.{find_customfit}
use fos_operational_system_f.Kheap.Fit.Search.{Fits, find_customfit_lem}
use fos_operational_system_f.Kheap.Alloc.{BlockAllocator, kmalloc, kfree}
use fos_operational_system_f.Kheap.Alloc.Placed.{Placed, record_size, kmalloc_lem}
use fos_operational_system_f.Kheap.Alloc.Freed.{Freed, kfree_lem}
use fos_operational_system_f.Kheap.Alloc.Wrapped.{kmalloc-wrapped}
use fos_operational_system_f.Kheap.Realloc.{krealloc}
use fos_operational_system_f.Kheap.Realloc.Shrunk.{Shrunk, krealloc-shrink}
use fos_operational_system_f.Kheap.Realloc.Moved.{krealloc_to_block}

-- A dynamic allocator that always gives its first block.
abbrev first_block : BlockAllocator
first_block = record {
  alloc_block = λ size h. ok (kernel_heap_start, h);
  free_block = λ va h. ok h;
  realloc_block = λ va size h. ok (va, h);
  get_block_size = λ va h. 2048;
}

-- The page area starts at page 8193. Two pages are allocated there, one page is free, and one
-- more is allocated below the break.
abbrev two_allocations : Kheap
two_allocations = record {
  kallocation_sizes = λ i. if i == 8193 then 5000 else if i == 8196 then 4096 else 0;
  page_alloc_start = kva 8193;
  page_alloc_break = kva 8197;
  dyn_alloc_end = kernel_heap_start + dyn_alloc_max_size;
  present = λ p. leb 0xF8001 p && ltb p 0xF8005 && not (p == 0xF8003);
  free_frames = 100;
  bytes = λ a. 0;
}

abbrev empty_heap : Kheap
empty_heap = record two_allocations {
  kallocation_sizes = λ i. 0;
  page_alloc_break = kva 8193;
  present = λ p. false;
}

two_allocations-HeapValid : HeapValid 8193 8197 two_allocations
unfolding pages_of roundup rounddown
two_allocations-HeapValid = record {
  start = refl;
  brk = refl;
  positive = ground arith;
  ordered = ground arith;
  limit = ground arith;
  low = λ i nz. ground arith;
  high = λ i nz. ground arith;
  some_page = λ i nz. ground arith;
  apart = λ i j k l lt. ground arith;
  mapped = λ i j nz lo hi. ground arith;
}

find_customfit_lem_example :
    (va : ℕ) × (find_customfit two_allocations 1 ≡ some va)
    × ((va ≢ 0 → Fits 8193 8197 two_allocations 1 va)
        × (va ≡ 0 → (a : ℕ) → ¬ Room 8193 8197 1 a two_allocations))
find_customfit_lem_example =
    find_customfit_lem 8193 8197 two_allocations two_allocations-HeapValid 1 (ground arith)

pages_of-5000 : pages_of 5000 ≡ 2
unfolding pages_of roundup rounddown
pages_of-5000 = refl

pages_of-4000 : pages_of 4000 ≡ 1
unfolding pages_of roundup rounddown
pages_of-4000 = refl

kmalloc_lem_example :
    (kernel_heap_max - kva 8197 < pages_of 4000 * page_size
      → kmalloc first_block 4000 two_allocations ≡ ok (0, two_allocations))
    × (pages_of 4000 * page_size ≤ kernel_heap_max - kva 8197
        → (va : ℕ) × (g : Kheap) × (kmalloc first_block 4000 two_allocations ≡ ok (va, g))
          × Placed 8193 8197 4000 va two_allocations g)
kmalloc_lem_example =
    kmalloc_lem 8193 8197 4000 two_allocations first_block two_allocations-HeapValid (ground arith)
      (ground arith) (omega (arith, pages_of-4000))

kfree_lem_example :
    (g : Kheap) × (kfree first_block (kva 8196) two_allocations ≡ ok g)
    × Freed 8193 8197 8196 two_allocations g
kfree_lem_example =
    kfree_lem 8193 8197 8196 two_allocations first_block two_allocations-HeapValid (ground arith)

kmalloc-wrapped_example :
    kmalloc first_block 0xFFFFF800 empty_heap
    ≡ ok (kva 8193, record_size (kva_to_index (kva 8193)) 0xFFFFF800 empty_heap)
kmalloc-wrapped_example =
    kmalloc-wrapped 0xFFFFF800 empty_heap first_block (ground arith) (ground arith) refl
      (ground arith)

krealloc-shrink_example :
    (g : Kheap) × (krealloc first_block (kva 8193) 4000 two_allocations ≡ ok (kva 8193, g))
    × Shrunk 8193 8197 8193 4000 two_allocations g
krealloc-shrink_example =
    krealloc-shrink 8193 8197 8193 4000 two_allocations first_block two_allocations-HeapValid
      (ground arith) (ground arith) (ground arith) (omega (arith, pages_of-4000))
      (omega (arith, pages_of-4000, pages_of-5000))

-- A dynamic allocator whose first two pages come to be present.
abbrev with_block : Kheap → Kheap
with_block h = record h { present = λ p. h.present p || p == 0xF6000 || p == 0xF6001 }

abbrev two_page_block : BlockAllocator
two_page_block = record first_block { alloc_block = λ size h. ok (kernel_heap_start, with_block h) }

with_block-HeapValid : HeapValid 8193 8197 (with_block two_allocations)
with_block-HeapValid = record {
  start = refl;
  brk = refl;
  positive = ground arith;
  ordered = ground arith;
  limit = ground arith;
  low = two_allocations-HeapValid.low;
  high = two_allocations-HeapValid.high;
  some_page = two_allocations-HeapValid.some_page;
  apart = two_allocations-HeapValid.apart;
  mapped = λ i j nz lo hi. ground (arith, two_allocations-HeapValid.mapped i j nz lo hi);
}

krealloc_to_block_example :
    (k : Kheap) × (krealloc two_page_block (kva 8193) 100 two_allocations
      ≡ ok (kernel_heap_start, k))
    × (k.kallocation_sizes 8193 ≡ 0)
    × ((j : ℕ) → 8193 ≤ j → j < 8193 + pages_of 5000 → k.present (kva j / page_size) ≡ false)
    × ((i : ℕ)
        → i < 5000
        → k.bytes (kernel_heap_start + i) ≡ (with_block two_allocations).bytes (kva 8193 + i))
krealloc_to_block_example =
    krealloc_to_block 8193 8197 8193 100 kernel_heap_start two_allocations
      (with_block two_allocations) two_page_block two_allocations-HeapValid (ground arith)
      (ground arith) (ground arith) (ground arith) (ground arith) refl (ground arith)
      with_block-HeapValid refl (λ j lo hi. ground (arith, lo, hi)) (inl (ground arith))
