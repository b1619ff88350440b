-- ===== src/Kheap/Alloc/Freed.antt =====
-- kern/mem/kheap.c: kfree keeps the heap well formed and takes the break down.
use fos_operational_system_f.Common.{
  ℕ, zero, suc, ◌+◌, ◌-◌, ◌/◌, ◌≤◌, ◌<◌, ◌≡◌, ◌≢◌, refl, ap, subst, sym, ◌∙◌, ◌⊎◌, inl, inr, true,
  false, arith, update, Bool-cases,
}
use native.Mathlib.Decide.{dec_lt, ℕ_discrete}
use fos_operational_system_f.Common.Outcome.{ok}
use fos_operational_system_f.Mmu.{page_size}
use fos_operational_system_f.Kheap.State.{
  Kheap, kernel_heap_start, dyn_alloc_max_block_size, kheap_pages_count, kva_to_index, pages_of,
}
use fos_operational_system_f.Kheap.Alloc.{
  BlockAllocator, return_pages, lower_break, kfree_pages, kfree,
}
use fos_operational_system_f.Kheap.Alloc.Pages.{Returned, return_pages_lem}
use fos_operational_system_f.Kheap.Valid.{kva, HeapValid, kva-index}

module _ (s b a : ℕ) (h g : Kheap) (v : HeapValid s b h) (used : h.kallocation_sizes a ≢ 0)
    (back : Returned a (pages_of (h.kallocation_sizes a)) h g) where
  abbrev new_sizes : ℕ → ℕ
  new_sizes = update g.kallocation_sizes a 0

  here : new_sizes a ≡ 0
  here = ground arith

  other : (i : ℕ) → new_sizes i ≢ 0 → i ≢ a
  other i k e = k (ap new_sizes e ∙ here)

  there : (i : ℕ) → i ≢ a → new_sizes i ≡ h.kallocation_sizes i
  there i ne = ground (arith, back.same.sizes i)

  old_nz : (i : ℕ) → new_sizes i ≢ 0 → h.kallocation_sizes i ≢ 0
  old_nz i k e = k (there i (other i k) ∙ e)

  -- A page of another allocation is none of the pages that were returned.
  outside :
      (i j : ℕ)
      → i ≢ a
      → h.kallocation_sizes i ≢ 0
      → i ≤ j
      → j < i + pages_of (h.kallocation_sizes i)
      → (j < a) ⊎ (a + pages_of (h.kallocation_sizes a) ≤ j)
  outside i j ne nz lo hi = elim (dec_lt i a) [
    | yes p ↦ inl (omega (arith, v.apart i a nz used p))
    | no p ↦ inr (omega (arith, v.apart a i used nz (omega arith)))
  ]

  pub freed-HeapValid : HeapValid s b (record g { kallocation_sizes = new_sizes })
  freed-HeapValid = record {
    start = back.same.start ∙ v.start;
    brk = back.same.brk ∙ v.brk;
    positive = v.positive;
    ordered = v.ordered;
    limit = v.limit;
    low = λ i k. v.low i (old_nz i k);
    high = λ i k. rw (there i (other i k)) (v.high i (old_nz i k));
    some_page = λ i k. rw (there i (other i k)) (v.some_page i (old_nz i k));
    apart = λ i j k l lt. rw (there i (other i k)) (v.apart i j (old_nz i k) (old_nz j l) lt);
    mapped = λ i j k lo hi.
        let q = rw (there i (other i k)) at hi in
        back.kept j (outside i j (other i k) (old_nz i k) lo q) ∙ v.mapped i j (old_nz i k) lo q;
  }

-- What the loop at the end of kfree does: the break comes down to the first page that is present,
-- or to the start.
pub record Lowered (s b : ℕ) (h g : Kheap) : Type 0 where
  pub top : ℕ
  pub below : top ≤ b
  pub valid : HeapValid s top g
  pub sizes : (i : ℕ) → g.kallocation_sizes i ≡ h.kallocation_sizes i
  pub pages : (p : ℕ) → g.present p ≡ h.present p
  pub bytes : g.bytes ≡ h.bytes
  pub done : (top ≡ s) ⊎ (g.present ((g.page_alloc_break - page_size) / page_size) ≡ true)

lower_break-step :
    (f : ℕ) (h : Kheap)
    → h.page_alloc_start < h.page_alloc_break
    → h.present ((h.page_alloc_break - page_size) / page_size) ≡ false
    → lower_break (suc f) h
      ≡ lower_break f (record h { page_alloc_break = h.page_alloc_break - page_size })
unfolding lower_break
lower_break-step f h lt e = ground (arith, e)

lower_break-stop :
    (f : ℕ) (h : Kheap)
    → (h.page_alloc_break ≤ h.page_alloc_start)
      ⊎ (h.present ((h.page_alloc_break - page_size) / page_size) ≡ true)
    → lower_break f h ≡ h
unfolding lower_break
lower_break-stop zero h e = refl
lower_break-stop (suc f) h (inl e) = ground arith
lower_break-stop (suc f) h (inr e) = ground (arith, e)

-- The last page is in no allocation when it is not present.
lower-HeapValid :
    (s b : ℕ) (h : Kheap)
    → HeapValid s b h
    → s < b
    → h.present ((h.page_alloc_break - page_size) / page_size) ≡ false
    → HeapValid s (b - 1) (record h { page_alloc_break = h.page_alloc_break - page_size })
lower-HeapValid s b h v lt e = record {
  start = v.start;
  brk = omega (arith, v.brk);
  positive = v.positive;
  ordered = omega arith;
  limit = omega (arith, v.limit);
  low = v.low;
  high = λ i k. elim (dec_lt (i + pages_of (h.kallocation_sizes i)) b) [
    | yes p ↦ omega arith
    | no p ↦
        let q = v.high i k in
        let m = v.mapped i (b - 1) k (omega (arith, v.some_page i k)) (omega arith) in
        absurd (ground (arith, m, e, ap h.present (last_page)))
  ];
  some_page = v.some_page;
  apart = v.apart;
  mapped = v.mapped;
}
  where
    last_page : kva (b - 1) / page_size ≡ (h.page_alloc_break - page_size) / page_size
    last_page = omega (arith, v.brk)

stay :
    (s b : ℕ) (h : Kheap)
    → HeapValid s b h
    → (b ≡ s) ⊎ (h.present ((h.page_alloc_break - page_size) / page_size) ≡ true)
    → Lowered s b h h
stay s b h v e = record {
  top = b;
  below = omega arith;
  valid = v;
  sizes = λ i. refl;
  pages = λ p. refl;
  bytes = refl;
  done = e;
}

lower_break_lem :
    (f s b : ℕ) (h : Kheap) → HeapValid s b h → b ≤ s + f → Lowered s b h (lower_break f h)
lower_break_lem zero s b h v le =
    rw (lower_break-stop zero h (inl (omega (arith, v.start, v.brk))))
      (stay s b h v (inl (omega (arith, v.ordered))))
lower_break_lem (suc f) s b h v le = elim (dec_lt s b) [
  | no p ↦
      rw (lower_break-stop (suc f) h (inl (omega (arith, v.start, v.brk))))
        (stay s b h v (inl (omega (arith, v.ordered))))
  | yes lt ↦ elim (Bool-cases (h.present ((h.page_alloc_break - page_size) / page_size))) [
    | inl e ↦ rw (lower_break-stop (suc f) h (inr e)) (stay s b h v (inr e))
    | inr e ↦
        let g = record h { page_alloc_break = h.page_alloc_break - page_size } in
        let w = lower_break_lem f s (b - 1) g (lower-HeapValid s b h v lt e) (omega arith) in
        rw (lower_break-step f h (omega (arith, v.start, v.brk)) e) (record {
          top = w.top;
          below = omega (arith, w.below);
          valid = w.valid;
          sizes = w.sizes;
          pages = w.pages;
          bytes = w.bytes;
          done = w.done;
        })
  ]
]

-- What kfree of the pages that start at `a` leaves.
pub record Freed (s b a : ℕ) (h g : Kheap) : Type 0 where
  pub top : ℕ
  pub below : top ≤ b
  pub valid : HeapValid s top g
  pub erased : g.kallocation_sizes a ≡ 0
  pub others : (i : ℕ) → i ≢ a → g.kallocation_sizes i ≡ h.kallocation_sizes i
  pub gone :
      (j : ℕ)
      → a ≤ j
      → j < a + pages_of (h.kallocation_sizes a)
      → g.present (kva j / page_size) ≡ false
  pub bytes : g.bytes ≡ h.bytes
  pub done : (top ≡ s) ⊎ (g.present ((g.page_alloc_break - page_size) / page_size) ≡ true)

kfree_pages_lem :
    (s b a : ℕ) (h : Kheap)
    → HeapValid s b h
    → h.kallocation_sizes a ≢ 0
    → Freed s b a h (kfree_pages (kva a) (h.kallocation_sizes a) h)
unfolding kfree_pages
kfree_pages_lem s b a h v nz =
    let n = pages_of (h.kallocation_sizes a) in
    let g = return_pages n (kva a) h in
    let w = return_pages_lem n a h (omega (arith, v.high a nz, v.limit)) in
    let f = (h.page_alloc_break - h.page_alloc_start) / page_size in
    let k = record g { kallocation_sizes = update g.kallocation_sizes a 0 } in
    let l =
      lower_break_lem f s b k (freed-HeapValid s b a h g v nz w) (omega (arith, v.start, v.brk)) in
    subst
      (λ i.
        Freed s b a h
          (lower_break f (record g { kallocation_sizes = update g.kallocation_sizes i 0 })))
      (sym (kva-index a))
      (record {
        top = l.top;
        below = l.below;
        valid = l.valid;
        erased = l.sizes a ∙ ground arith;
        others = λ i ne. l.sizes i ∙ ground (arith, w.same.sizes i);
        gone = λ j lo hi. l.pages (kva j / page_size) ∙ w.gone j lo hi;
        bytes = l.bytes ∙ w.same.bytes;
        done = l.done;
      })

kfree-pages :
    (d : BlockAllocator) (a : ℕ) (h : Kheap)
    → a < kheap_pages_count
    → dyn_alloc_max_block_size < h.kallocation_sizes a
    → kfree d (kva a) h ≡ ok (kfree_pages (kva a) (h.kallocation_sizes a) h)
unfolding kfree
kfree-pages d a h lt big = ground (
  arith,
  ap h.kallocation_sizes (kva-index a),
  ap (λ z. kfree_pages (kva a) z h) (ap h.kallocation_sizes (kva-index a)),
)

-- On a well-formed heap, kfree of the address of a page at which more than 2048 bytes are
-- recorded returns. The record is erased and no other record changes, none of the allocation's
-- pages is present, the heap's content is as it was, the break does not go up, and the heap stays well formed: in particular the
-- break has not come down past the end of another allocation. The break is at the start of the
-- page area, or the page below it is present.
pub kfree_lem :
    (s b a : ℕ) (h : Kheap) (d : BlockAllocator)
    → HeapValid s b h
    → dyn_alloc_max_block_size < h.kallocation_sizes a
    → (g : Kheap) × (kfree d (kva a) h ≡ ok g) × Freed s b a h g
kfree_lem s b a h d v big = (
  kfree_pages (kva a) (h.kallocation_sizes a) h,
  kfree-pages d a h (omega (arith, v.high a (omega arith), v.some_page a (omega arith), v.limit))
      big,
  kfree_pages_lem s b a h v (omega arith),
)

-- On a well-formed heap, kfree of an address below the page area, which is where the blocks of
-- the dynamic allocator are, returns and changes nothing, whatever the dynamic allocator is:
-- free_block is not reached.
kfree-block :
    (s b va : ℕ) (h : Kheap) (d : BlockAllocator)
    → HeapValid s b h
    → kernel_heap_start ≤ va
    → va < h.page_alloc_start
    → kfree d va h ≡ ok h
unfolding kfree
kfree-block s b va h d v lo hi = elim (ℕ_discrete (h.kallocation_sizes (kva_to_index va)) 0) [
  | yes z ↦ ground (arith, z)
  | no nz ↦ absurd (omega (arith, v.low (kva_to_index va) nz, v.start))
]
