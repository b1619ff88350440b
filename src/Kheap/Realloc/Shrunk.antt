-- ===== src/Kheap/Realloc/Shrunk.antt =====
-- kern/mem/kheap.c: krealloc of a page allocation to fewer pages.
use fos_operational_system_f.Common.{
  ℕ, ◌+◌, ◌-◌, ◌*◌, ◌/◌, ◌≤◌, ◌<◌, ◌≡◌, ◌≢◌, refl, ap, ◌∙◌, ◌⊎◌, inl, inr, false, arith, update,
}
use native.Mathlib.Decide.{dec_lt, ℕ_discrete}
use fos_operational_system_f.Common.Outcome.{ok}
use fos_operational_system_f.Mmu.{page_size}
use fos_operational_system_f.Kheap.State.{Kheap, dyn_alloc_max_block_size, kva_to_index, pages_of}
use fos_operational_system_f.Kheap.Alloc.{BlockAllocator, return_pages}
use fos_operational_system_f.Kheap.Alloc.Pages.{Returned, return_pages_lem}
use fos_operational_system_f.Kheap.Realloc.{shrink_pages, realloc_pages, krealloc}
use fos_operational_system_f.Kheap.Valid.{kva, HeapValid, kva-index}

module _ (s b a size : ℕ) (h g : Kheap) (v : HeapValid s b h) (used : h.kallocation_sizes a ≢ 0)
    (pos : 0 < size) (some_page : 0 < pages_of size)
    (fewer : pages_of size < pages_of (h.kallocation_sizes a))
    (back : Returned
      (a + pages_of size)
      (pages_of (h.kallocation_sizes a) - pages_of size)
      h
      g) where
  abbrev new_sizes : ℕ → ℕ
  new_sizes = update g.kallocation_sizes a size

  here : new_sizes a ≡ size
  here = ground arith

  there : (i : ℕ) → i ≢ a → new_sizes i ≡ h.kallocation_sizes i
  there i ne = ground (arith, back.same.sizes i)

  -- An allocation is where it was, and has at most as many pages.
  smaller :
      (i : ℕ)
      → new_sizes i ≢ 0
      → (h.kallocation_sizes i ≢ 0)
        × (0 < pages_of (new_sizes i))
        × (pages_of (new_sizes i) ≤ pages_of (h.kallocation_sizes i))
  smaller i k = elim (ℕ_discrete i a) [
    | yes e ↦ rw e (used, rw here some_page, rw here (omega arith))
    | no ne ↦
        let nz : h.kallocation_sizes i ≢ 0 = λ z. k (there i ne ∙ z) in
        (nz, rw (there i ne) (v.some_page i nz), rw (there i ne) (omega arith))
  ]

  -- A page that an allocation still has is none of those that were returned.
  outside :
      (i j : ℕ)
      → new_sizes i ≢ 0
      → i ≤ j
      → j < i + pages_of (new_sizes i)
      → (j < a + pages_of size)
        ⊎ (a + pages_of size + (pages_of (h.kallocation_sizes a) - pages_of size) ≤ j)
  outside i j k lo hi = elim (ℕ_discrete i a) [
    | yes e ↦ inl (omega (arith, rw here at (rw e at hi)))
    | no ne ↦
        let q = smaller i k in
        elim (dec_lt i a) [
          | yes p ↦ inl (omega (arith, v.apart i a q.0 used p, q.2))
          | no p ↦ inr (omega (arith, v.apart a i used q.0 (omega arith)))
        ]
  ]

  pub resized-HeapValid :
      (c : ℕ)
      → c ≤ b
      → ((i : ℕ) → new_sizes i ≢ 0 → i + pages_of (new_sizes i) ≤ c)
      → s ≤ c
      → HeapValid s c (record g { kallocation_sizes = new_sizes; page_alloc_break = kva c })
  resized-HeapValid c le high lo = record {
    start = back.same.start ∙ v.start;
    brk = refl;
    positive = v.positive;
    ordered = lo;
    limit = omega (arith, v.limit);
    low = λ i k. v.low i ((smaller i k).0);
    high = high;
    some_page = λ i k. (smaller i k).1;
    apart = λ i j k l lt.
        omega (arith, (smaller i k).2, v.apart i j (smaller i k).0 (smaller j l).0 lt);
    mapped = λ i j k lo' hi.
        back.kept j (outside i j k lo' hi)
        ∙ v.mapped i j (smaller i k).0 lo' (omega (arith, (smaller i k).2));
  }

shrink-last :
    (va x old new size a : ℕ) (h g : Kheap)
    → va + new * page_size ≡ x
    → kva_to_index va ≡ a
    → return_pages (old - new) x h ≡ g
    → va + old * page_size ≡ g.page_alloc_break
    → shrink_pages va old new size h
      ≡ record g { kallocation_sizes = update g.kallocation_sizes a size; page_alloc_break = x }
unfolding shrink_pages
shrink-last va x old new size a h g d e f c = rw (d, e, f) (ground (arith, c))

shrink-inside :
    (va x old new size a : ℕ) (h g : Kheap)
    → va + new * page_size ≡ x
    → kva_to_index va ≡ a
    → return_pages (old - new) x h ≡ g
    → va + old * page_size ≢ g.page_alloc_break
    → shrink_pages va old new size h
      ≡ record g { kallocation_sizes = update g.kallocation_sizes a size }
unfolding shrink_pages
shrink-inside va x old new size a h g d e f c = rw (d, e, f) (ground (arith, c))

-- What a page allocation at page `a` is after it has been made `size` bytes long in place.
pub record Shrunk (s b a size : ℕ) (h g : Kheap) : Type 0 where
  pub top : ℕ
  pub below : top ≤ b
  pub valid : HeapValid s top g
  pub recorded : g.kallocation_sizes a ≡ size
  pub others : (i : ℕ) → i ≢ a → g.kallocation_sizes i ≡ h.kallocation_sizes i
  pub gone :
      (j : ℕ)
      → a + pages_of size ≤ j
      → j < a + pages_of (h.kallocation_sizes a)
      → g.present (kva j / page_size) ≡ false

module _ (s b a size : ℕ) (h : Kheap) (v : HeapValid s b h) (used : h.kallocation_sizes a ≢ 0)
    (pos : 0 < size) (some_page : 0 < pages_of size)
    (fewer : pages_of size < pages_of (h.kallocation_sizes a)) where
  abbrev after : Kheap
  after =
      return_pages (pages_of (h.kallocation_sizes a) - pages_of size) (kva (a + pages_of size)) h

  back : Returned (a + pages_of size) (pages_of (h.kallocation_sizes a) - pages_of size) h after
  back =
      return_pages_lem (pages_of (h.kallocation_sizes a) - pages_of size) (a + pages_of size) h
        (omega (arith, v.high a used, v.limit))

  shrunk :
      (c : ℕ)
      → c ≤ b
      → s ≤ c
      → ((i : ℕ)
          → update after.kallocation_sizes a size i ≢ 0
          → i + pages_of (update after.kallocation_sizes a size i) ≤ c)
      → Shrunk s b a size h (record after {
        kallocation_sizes = update after.kallocation_sizes a size;
        page_alloc_break = kva c;
      })
  shrunk c le lo high = record {
    top = c;
    below = le;
    valid = resized-HeapValid s b a size h after v used pos some_page fewer back c le high lo;
    recorded = here s b a size h after v used pos some_page fewer back;
    others = there s b a size h after v used pos some_page fewer back;
    gone = λ j p q. back.gone j p (omega arith);
  }

  high_same :
      (i : ℕ)
      → update after.kallocation_sizes a size i ≢ 0
      → i + pages_of (update after.kallocation_sizes a size i) ≤ b
  high_same i k =
      let q = smaller s b a size h after v used pos some_page fewer back i k in
      omega (arith, q.2, v.high i q.0)

  high_last :
      a + pages_of (h.kallocation_sizes a) ≡ b
      → (i : ℕ) → update after.kallocation_sizes a size i ≢ 0
      → i + pages_of (update after.kallocation_sizes a size i) ≤ a + pages_of size
  high_last e i k = elim (ℕ_discrete i a) [
    | yes f ↦ rw f (rw (here s b a size h after v used pos some_page fewer back) (omega arith))
    | no ne ↦
        let q = smaller s b a size h after v used pos some_page fewer back i k in
        elim (dec_lt i a) [
          | yes p ↦ omega (arith, v.apart i a q.0 used p, q.2)
          | no p ↦
              absurd
                (omega (arith, v.apart a i used q.0 (omega arith), v.high i q.0, v.some_page i q.0))
        ]
  ]

  shrink_pages_lem :
      (g : Kheap) × (shrink_pages (kva a) (pages_of (h.kallocation_sizes a)) (pages_of size) size h
        ≡ g)
      × Shrunk s b a size h g
  shrink_pages_lem = elim (ℕ_discrete (a + pages_of (h.kallocation_sizes a)) b) [
    | yes e ↦ (
      record after {
        kallocation_sizes = update after.kallocation_sizes a size;
        page_alloc_break = kva (a + pages_of size);
      },
      shrink-last (kva a) (kva (a + pages_of size)) (pages_of (h.kallocation_sizes a))
          (pages_of size) size a h after (omega arith) (kva-index a) refl
          (omega (arith, back.same.brk, v.brk)),
      shrunk (a + pages_of size) (omega (arith, v.high a used)) (omega (arith, v.low a used))
          (high_last e),
    )
    | no ne ↦ (
      record after {
        kallocation_sizes = update after.kallocation_sizes a size;
        page_alloc_break = kva b;
      },
      shrink-inside (kva a) (kva (a + pages_of size)) (pages_of (h.kallocation_sizes a))
            (pages_of size) size a h after (omega arith) (kva-index a) refl
            (λ q. ne (omega (arith, back.same.brk, v.brk)))
          ∙ ap
              (λ x. record after {
                kallocation_sizes = update after.kallocation_sizes a size;
                page_alloc_break = x;
              })
              (back.same.brk ∙ v.brk),
      shrunk b (omega arith) v.ordered high_same,
    )
  ]

krealloc-pages :
    (d : BlockAllocator) (va old size a : ℕ) (h : Kheap)
    → kva_to_index va ≡ a
    → h.kallocation_sizes a ≡ old
    → 0 < va
    → h.page_alloc_start ≤ va
    → va < h.page_alloc_break
    → h.dyn_alloc_end ≤ va
    → old ≢ 0
    → old ≢ size
    → dyn_alloc_max_block_size < size
    → krealloc d va size h ≡ realloc_pages d va old size h
unfolding krealloc
krealloc-pages d va old size a h e f p lo hi dyn nz ne big =
    let q : h.kallocation_sizes (kva_to_index va) ≡ old = ap h.kallocation_sizes e ∙ f in
    rw (krealloc, q) (ground arith)

realloc_pages-shrink :
    (d : BlockAllocator) (va old size : ℕ) (h : Kheap)
    → pages_of size < pages_of old
    → realloc_pages d va old size h ≡ ok (va, shrink_pages va (pages_of old) (pages_of size) size h)
unfolding realloc_pages
realloc_pages-shrink d va old size h lt = ground arith

-- On a well-formed heap whose block area ends below the page area, krealloc of a page allocation
-- to a size above 2048 bytes that takes fewer pages returns the same address. The new size is
-- recorded and no other record changes, the pages cut off are no longer present, and the heap
-- stays well formed, so that the pages that remain are present and the break is above every
-- allocation.
pub krealloc-shrink :
    (s b a size : ℕ) (h : Kheap) (d : BlockAllocator)
    → HeapValid s b h
    → h.dyn_alloc_end ≤ h.page_alloc_start
    → h.kallocation_sizes a ≢ 0
    → dyn_alloc_max_block_size < size
    → 0 < pages_of size
    → pages_of size < pages_of (h.kallocation_sizes a)
    → (g : Kheap) × (krealloc d (kva a) size h ≡ ok (kva a, g)) × Shrunk s b a size h g
krealloc-shrink s b a size h d v dyn used big some_page fewer =
    let (g, e, w) = shrink_pages_lem s b a size h v used (omega arith) some_page fewer in
    (
      g,
      krealloc-pages d (kva a) (h.kallocation_sizes a) size a h (kva-index a) refl (omega arith)
            (omega (arith, v.start, v.low a used))
            (omega (arith, v.brk, v.high a used, v.some_page a used))
            (omega (arith, v.start, v.low a used)) used (λ q. absurd (omega (arith, ap pages_of q)))
            big
          ∙ realloc_pages-shrink d (kva a) (h.kallocation_sizes a) size h fewer
          ∙ ap (λ k. ok (kva a, k)) e,
      w,
    )
