-- ===== src/Kheap/Valid.antt =====
-- The well-formedness of the kernel heap's page allocations (kern/mem/kheap.c), by page number
-- counted from KERNEL_HEAP_START.
use fos_operational_system_f.Common.{ℕ, ◌+◌, ◌*◌, ◌/◌, ◌%◌, ◌^◌, ◌≤◌, ◌<◌, ◌≡◌, ◌≢◌, true, arith}
use fos_operational_system_f.Mmu.{page_size}
use fos_operational_system_f.Kheap.State.{
  Kheap, kernel_heap_start, kva_to_index, pages_of, kheap_pages_count,
}

-- The address of page `i`.
abbrev pub kva : ℕ → ℕ
kva i = kernel_heap_start + i * page_size

abbrev pub pages_at : Kheap → ℕ → ℕ
pages_at h i = pages_of (h.kallocation_sizes i)

-- The pages from `s` to `b` are managed. An allocation lies among them, has a page at least, no
-- other allocation starts on its pages, and its pages are present.
pub record HeapValid (s b : ℕ) (h : Kheap) : Type 0 where
  pub start : h.page_alloc_start ≡ kva s
  pub brk : h.page_alloc_break ≡ kva b
  pub positive : 0 < s
  pub ordered : s ≤ b
  pub limit : b ≤ kheap_pages_count
  pub low : (i : ℕ) → h.kallocation_sizes i ≢ 0 → s ≤ i
  pub high : (i : ℕ) → h.kallocation_sizes i ≢ 0 → i + pages_of (h.kallocation_sizes i) ≤ b
  pub some_page : (i : ℕ) → h.kallocation_sizes i ≢ 0 → 0 < pages_of (h.kallocation_sizes i)
  pub apart :
      (i j : ℕ)
      → h.kallocation_sizes i ≢ 0
      → h.kallocation_sizes j ≢ 0
      → i < j
      → i + pages_of (h.kallocation_sizes i) ≤ j
  pub mapped :
      (i j : ℕ)
      → h.kallocation_sizes i ≢ 0
      → i ≤ j
      → j < i + pages_of (h.kallocation_sizes i)
      → h.present (kva j / page_size) ≡ true

-- No allocation covers page `j`: those that start up to it have ended.
abbrev pub IsFree : Kheap → ℕ → Type 0
IsFree h j = (k : ℕ) → k ≤ j → h.kallocation_sizes k ≢ 0 → k + pages_of (h.kallocation_sizes k) ≤ j

-- The `n` pages from `a` on are managed and free.
pub record Room (s b n a : ℕ) (h : Kheap) : Type 0 where
  pub first : s ≤ a
  pub last : a + n ≤ b
  pub free : (j : ℕ) → a ≤ j → j < a + n → IsFree h j

pub kva-index : (i : ℕ) → kva_to_index (kva i) ≡ i
kva-index i = omega arith

pub kva-next :
    (i r b : ℕ) → i + r ≤ b → b ≤ kheap_pages_count → (kva i + r * page_size) % 2 ^ 32 ≡ kva (i + r)
kva-next i r b h k = omega arith
