-- ===== src/Kheap/Realloc/Moved.antt =====
-- kern/mem/kheap.c: krealloc of a page allocation to a size that the dynamic allocator serves.
use fos_operational_system_f.Common.{
  ℕ, zero, suc, true, false, ◌*◌, ◌/◌, ◌^◌, subst, ◌+◌, ◌-◌, ◌&&◌, ltb, leb, if◌then◌else◌, ◌≤◌,
  ◌<◌, ◌≡◌, ◌≢◌, refl, ap, ◌∙◌, arith, ◌⊎◌, ◌||◌,
}
use fos_operational_system_f.Common.Outcome.{ok}
use fos_operational_system_f.Mmu.{page_size, roundup, rounddown}
use fos_operational_system_f.Kheap.State.{
  Kheap, Run, Allocated, dyn_alloc_max_block_size, kva_to_index, kernel_heap_start, pages_of,
  pages_present, touched, memcpy,
}
use fos_operational_system_f.Kheap.Alloc.{BlockAllocator, kfree}
use fos_operational_system_f.Kheap.Alloc.Freed.{kfree_lem}
use fos_operational_system_f.Kheap.Realloc.{move_to, krealloc}
use fos_operational_system_f.Kheap.Valid.{kva, HeapValid, kva-index}

-- The heap after the copy.
abbrev copied : ℕ → ℕ → ℕ → Kheap → Kheap
copied dst src n h = record h {
  bytes = λ a. if leb dst a && ltb a (dst + n) then h.bytes (src + (a - dst)) else h.bytes a;
}

copied-HeapValid :
    (s b dst src n : ℕ) (h : Kheap) → HeapValid s b h → HeapValid s b (copied dst src n h)
copied-HeapValid s b dst src n h v = record {
  start = v.start;
  brk = v.brk;
  positive = v.positive;
  ordered = v.ordered;
  limit = v.limit;
  low = v.low;
  high = v.high;
  some_page = v.some_page;
  apart = v.apart;
  mapped = v.mapped;
}

copied-bytes :
    (dst src n i : ℕ) (h : Kheap) → i < n → (copied dst src n h).bytes (dst + i) ≡ h.bytes (src + i)
copied-bytes dst src n i h lt = ground (arith, ap h.bytes (shift dst src i))
  where
    shift : (dst src i : ℕ) → src + (dst + i - dst) ≡ src + i
    shift dst src i = omega arith

pages_present_lem :
    (count page : ℕ) (h : Kheap)
    → ((j : ℕ) → page ≤ j → j < page + count → h.present j ≡ true)
    → pages_present count page h ≡ true
unfolding pages_present
pages_present_lem zero page h k = refl
pages_present_lem (suc count) page h k = ground (
  arith,
  k page (omega arith) (omega arith),
  pages_present_lem count (page + 1) h (λ j lo hi. k j (omega (arith, lo)) (omega (arith, hi))),
)

-- The two places of `n` bytes do not overlap.
abbrev pub ApartBytes : ℕ → ℕ → ℕ → Type 0
ApartBytes dst src n = (dst + n ≤ src) ⊎ (src + n ≤ dst)

-- The pages that the `n` bytes at `va` touch are present.
abbrev pub Mapped : ℕ → ℕ → Kheap → Type 0
Mapped va n h = (j : ℕ) → va / page_size ≤ j → j * page_size < va + n → h.present j ≡ true

Mapped-present :
    (va n : ℕ) (h : Kheap) → Mapped va n h → pages_present (touched va n) (va / page_size) h ≡ true
Mapped-present va n h m =
    pages_present_lem (touched va n) (va / page_size) h (λ j lo hi. m j lo (ground (arith, hi, lo)))

memcpy_lem :
    (dst src n : ℕ) (h : Kheap)
    → Mapped src n h
    → Mapped dst n h
    → ApartBytes dst src n
    → memcpy dst src n h ≡ ok (copied dst src n h)
unfolding memcpy
memcpy_lem dst src n h s d ne =
    let apart : (leb (dst + n) src || leb (src + n) dst) ≡ true = ground (arith, ne) in
    rw (Mapped-present src n h s, Mapped-present dst n h d, apart) refl

-- An allocation is mapped.
allocation-Mapped :
    (s b a : ℕ) (h : Kheap)
    → HeapValid s b h
    → h.kallocation_sizes a ≢ 0
    → h.kallocation_sizes a ≤ pages_of (h.kallocation_sizes a) * page_size
    → Mapped (kva a) (h.kallocation_sizes a) h
allocation-Mapped s b a h v nz fits j lo hi =
    let page : kva (j - kernel_heap_start / page_size) / page_size ≡ j = omega (arith, lo) in
    subst (λ x. h.present x ≡ true) page
      (v.mapped a (j - kernel_heap_start / page_size) nz (omega (arith, lo))
        (omega (arith, hi, fits)))

move_to-ok :
    (va old p : ℕ) (m : Allocated) (free : Kheap → Run) (h g c k : Kheap)
    → m ≡ ok (p, g)
    → p ≢ 0
    → memcpy p va old g ≡ ok c
    → free c ≡ ok k
    → move_to va old m free h ≡ ok (p, k)
unfolding move_to
move_to-ok va old p m free h g c k e nz q f = rw (move_to, e) (ground (arith, q, f))

-- A size whose pages do not wrap round fits in them.
pages_of-fits : (n : ℕ) → n < 2 ^ 32 → 0 < pages_of n → n ≤ pages_of n * page_size
unfolding pages_of roundup rounddown
pages_of-fits n word pos = omega (arith, pos)

krealloc-block :
    (d : BlockAllocator) (va old size a : ℕ) (h : Kheap)
    → kva_to_index va ≡ a
    → h.kallocation_sizes a ≡ old
    → 0 < va
    → h.page_alloc_start ≤ va
    → va < h.page_alloc_break
    → h.dyn_alloc_end ≤ va
    → dyn_alloc_max_block_size < old
    → 0 < size
    → size ≤ dyn_alloc_max_block_size
    → krealloc d va size h ≡ move_to va old (d.alloc_block size h) (kfree d va) h
unfolding krealloc
krealloc-block d va old size a h e f p lo hi dyn big pos small =
    let q : h.kallocation_sizes (kva_to_index va) ≡ old = ap h.kallocation_sizes e ∙ f in
    rw (krealloc, q) (ground arith)

-- On a well-formed heap whose block area ends below the page area, krealloc of a page allocation
-- of more than 2048 bytes to between 1 and 2048 bytes, where the dynamic allocator gives a block
-- at `p` with all that the copy writes to present and apart from the allocation, and leaves the page area well formed and the
-- allocation's record as it was: krealloc returns `p`, the record of the page allocation is erased
-- and its pages are no longer present, and the bytes from `p` on are those of the whole old
-- allocation, all the old size of them, also those past the `size` bytes that were asked for.
pub krealloc_to_block :
    (s b a size p : ℕ) (h g : Kheap) (d : BlockAllocator)
    → HeapValid s b h
    → h.dyn_alloc_end ≤ h.page_alloc_start
    → dyn_alloc_max_block_size < h.kallocation_sizes a
    → h.kallocation_sizes a < 2 ^ 32
    → 0 < size
    → size ≤ dyn_alloc_max_block_size
    → d.alloc_block size h ≡ ok (p, g)
    → p ≢ 0
    → HeapValid s b g
    → g.kallocation_sizes a ≡ h.kallocation_sizes a
    → Mapped p (h.kallocation_sizes a) g
    → ApartBytes p (kva a) (h.kallocation_sizes a)
    → (k : Kheap) × (krealloc d (kva a) size h ≡ ok (p, k))
      × (k.kallocation_sizes a ≡ 0)
      × ((j : ℕ)
          → a ≤ j
          → j < a + pages_of (h.kallocation_sizes a)
          → k.present (kva j / page_size) ≡ false)
      × ((i : ℕ) → i < h.kallocation_sizes a → k.bytes (p + i) ≡ g.bytes (kva a + i))
krealloc_to_block s b a size p h g d v dyn big word pos small al nz w same there ne =
    let old = h.kallocation_sizes a in
    let m = copied p (kva a) old g in
    let source : Mapped (kva a) old g =
      subst (λ n. Mapped (kva a) n g) same
        (allocation-Mapped s b a g w (omega (arith, same)) (
          pages_of-fits (g.kallocation_sizes a) (omega (arith, word, same))
            (w.some_page a (omega (arith, same))))) in
    let (k, e, f) =
      kfree_lem s b a m d (copied-HeapValid s b p (kva a) old g w) (omega (arith, same)) in
    (
      k,
      krealloc-block d (kva a) old size a h (kva-index a) refl (omega arith)
            (omega (arith, v.start, v.low a (omega arith)))
            (omega (arith, v.brk, v.high a (omega arith), v.some_page a (omega arith)))
            (omega (arith, v.start, v.low a (omega arith))) big pos small
          ∙ move_to-ok (kva a) old p (d.alloc_block size h) (kfree d (kva a)) h g m k al nz
              (memcpy_lem p (kva a) old g source there ne) e,
      f.erased,
      λ j lo hi. f.gone j lo (omega (arith, hi, ap pages_of same)),
      λ i lt. ap (λ (c : ℕ → ℕ). c (p + i)) f.bytes ∙ copied-bytes p (kva a) old i g lt,
    )
