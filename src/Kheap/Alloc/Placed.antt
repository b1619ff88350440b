-- ===== src/Kheap/Alloc/Placed.antt =====
-- kern/mem/kheap.c: a page allocation of kmalloc keeps the heap well formed.
use fos_operational_system_f.Common.{
  ℕ, zero, suc, ◌+◌, ◌-◌, ◌*◌, ◌/◌, ◌^◌, ◌≤◌, ◌<◌, ◌≡◌, ◌≢◌, refl, ap, subst, sym, ◌∙◌, true, some,
  arith, update,
}
use native.Mathlib.Decide.{dec_lt, ℕ_discrete}
use fos_operational_system_f.Common.Outcome.{ok}
use fos_operational_system_f.Mmu.{page_size}
use fos_operational_system_f.Kheap.State.{
  Kheap, kernel_heap_max, dyn_alloc_max_block_size, kheap_pages_count, kva_to_index, pages_of,
}
use fos_operational_system_f.Kheap.Fit.{find_customfit}
use fos_operational_system_f.Kheap.Fit.Search.{find_customfit_lem}
use fos_operational_system_f.Kheap.Alloc.{BlockAllocator, get_pages, kmalloc_pages, kmalloc}
use fos_operational_system_f.Kheap.Alloc.Pages.{Got, get_pages_lem}
use fos_operational_system_f.Kheap.Valid.{kva, HeapValid, IsFree, kva-index}

-- `size` bytes are recorded at page `a`, in a heap whose managed pages now end at `c`.
abbrev pub record_size : ℕ → ℕ → Kheap → Kheap
record_size a size g = record g { kallocation_sizes = update g.kallocation_sizes a size }

module _ (s b c a size : ℕ) (h g : Kheap) (v : HeapValid s b h) (nz : 0 < size)
    (some_page : 0 < pages_of size) (le : b ≤ c) (lim : c ≤ kheap_pages_count) (first : s ≤ a)
    (last : a + pages_of size ≤ c) (free : (j : ℕ) → a ≤ j → j < a + pages_of size → IsFree h j)
    (got : Got a (pages_of size) (record h { page_alloc_break = kva c }) g) where
  abbrev new_sizes : ℕ → ℕ
  new_sizes = update g.kallocation_sizes a size

  here : new_sizes a ≡ size
  here = ground arith

  there : (i : ℕ) → i ≢ a → new_sizes i ≡ h.kallocation_sizes i
  there i ne = ground (arith, got.same.sizes i)

  old_nz : (i : ℕ) → i ≢ a → new_sizes i ≢ 0 → h.kallocation_sizes i ≢ 0
  old_nz i ne k e = k (there i ne ∙ e)

  -- No old allocation starts on the new pages.
  clear : (j : ℕ) → a < j → new_sizes j ≢ 0 → a + pages_of size ≤ j
  clear j lt k = elim (dec_lt j (a + pages_of size)) [
    | no q ↦ omega arith
    | yes q ↦
        let z = old_nz j (omega arith) k in
        absurd (omega (arith, free j (omega arith) q j (omega arith) z, v.some_page j z))
  ]

  new_apart : (i j : ℕ) → new_sizes i ≢ 0 → new_sizes j ≢ 0 → i < j → i + pages_of (new_sizes i) ≤ j
  new_apart i j k l lt = elim (ℕ_discrete i a) [
    | yes e ↦ rw e (rw here (clear j (omega arith) l))
    | no ne ↦ rw (there i ne) (elim (ℕ_discrete j a) [
      | yes f ↦ rw f (free a (omega arith) (omega arith) i (omega arith) (old_nz i ne k))
      | no nf ↦ v.apart i j (old_nz i ne k) (old_nz j nf l) lt
    ])
  ]

  new_mapped :
      (i j : ℕ)
      → new_sizes i ≢ 0
      → i ≤ j
      → j < i + pages_of (new_sizes i)
      → g.present (kva j / page_size) ≡ true
  new_mapped i j k lo hi = elim (ℕ_discrete i a) [
    | yes e ↦ got.now j (omega arith) (rw here at (rw e at hi))
    | no ne ↦ got.kept (kva j / page_size) (v.mapped i j (old_nz i ne k) lo (rw (there i ne) at hi))
  ]

  pub record_size-HeapValid : HeapValid s c (record_size a size g)
  record_size-HeapValid = record {
    start = got.same.start ∙ v.start;
    brk = got.same.brk;
    positive = v.positive;
    ordered = omega (arith, v.ordered);
    limit = lim;
    low = λ i k. elim (ℕ_discrete i a) [
      | yes e ↦ omega arith
      | no ne ↦ v.low i (rw (there i ne) at k)
    ];
    high = λ i k. elim (ℕ_discrete i a) [
      | yes e ↦ rw e (rw here last)
      | no ne ↦ rw (there i ne) (omega (arith, v.high i (rw (there i ne) at k)))
    ];
    some_page = λ i k. elim (ℕ_discrete i a) [
      | yes e ↦ rw e (rw here some_page)
      | no ne ↦ rw (there i ne) (v.some_page i (rw (there i ne) at k))
    ];
    apart = new_apart;
    mapped = new_mapped;
  }

-- What a page allocation of `size` bytes at `va` promises: page `a` starts at `va`, its pages were
-- free, they are present, `size` is recorded for it and no other record is changed, and the heap
-- is well formed.
pub record Placed (s b size va : ℕ) (h g : Kheap) : Type 0 where
  pub page : ℕ
  pub at_page : va ≡ kva page
  pub managed : s ≤ page
  pub was_free : (j : ℕ) → page ≤ j → j < page + pages_of size → IsFree h j
  pub recorded : g.kallocation_sizes page ≡ size
  pub others : (i : ℕ) → i ≢ page → g.kallocation_sizes i ≡ h.kallocation_sizes i
  pub valid : (c : ℕ) × (b ≤ c) × HeapValid s c g

high-IsFree : (s b : ℕ) (h : Kheap) → HeapValid s b h → (j : ℕ) → b ≤ j → IsFree h j
high-IsFree s b h v j le k lt nz = omega (arith, v.high k nz)

pub pages_of-pos : (size : ℕ) → 0 < size → size ≤ 0xFFFFF000 → 0 < pages_of size
unfolding pages_of
pages_of-pos size p q = omega arith

pub pages_of-le : (size : ℕ) → pages_of size * page_size < 2 ^ 32
unfolding pages_of
pages_of-le size = omega arith

kmalloc_pages-hole :
    (size n va : ℕ) (h g : Kheap)
    → find_customfit h n ≡ some va
    → va ≢ 0
    → get_pages n va h ≡ ok g
    → kmalloc_pages size n h ≡ ok (va, record_size (kva_to_index va) size g)
unfolding kmalloc_pages
kmalloc_pages-hole size n zero h g e nz q = absurd (nz refl)
kmalloc_pages-hole size n (suc va) h g e nz q = rw (e, kmalloc_pages) (rw q refl)

pub kmalloc_pages-break :
    (size n : ℕ) (h g : Kheap)
    → find_customfit h n ≡ some 0
    → h.page_alloc_break + n * page_size ≤ kernel_heap_max
    → get_pages n h.page_alloc_break
        (record h { page_alloc_break = h.page_alloc_break + n * page_size })
      ≡ ok g
    → kmalloc_pages size n h
      ≡ ok (h.page_alloc_break, record_size (kva_to_index h.page_alloc_break) size g)
unfolding kmalloc_pages
kmalloc_pages-break size n h g e le q = rw (e, kmalloc_pages) (ground (arith, q))

module _ (s b size : ℕ) (h : Kheap) (v : HeapValid s b h) (big : dyn_alloc_max_block_size < size)
    (small : size ≤ 0xFFFFF000) (frames : pages_of size ≤ h.free_frames) where
  place :
      (c a : ℕ) (g : Kheap)
      → b ≤ c
      → c ≤ kheap_pages_count
      → s ≤ a
      → a + pages_of size ≤ c
      → ((j : ℕ) → a ≤ j → j < a + pages_of size → IsFree h j)
      → Got a (pages_of size) (record h { page_alloc_break = kva c }) g
      → Placed s b size (kva a) h (record_size a size g)
  place c a g le lim first last free got = record {
    page = a;
    at_page = refl;
    managed = first;
    was_free = free;
    recorded = ground arith;
    others = λ i ne. ground (arith, got.same.sizes i);
    valid = (
      c,
      le,
      record_size-HeapValid s b c a size h g v (omega arith) (pages_of-pos size (omega arith) small)
          le lim first last free got,
    );
  }

  place_at :
      (a x : ℕ) (g : Kheap)
      → x ≡ kva a
      → Placed s b size (kva a) h (record_size a size g)
      → Placed s b size x h (record_size (kva_to_index x) size g)
  place_at a x g e p =
      subst (λ k. Placed s b size x h (record_size k size g))
        (sym (kva-index a) ∙ ap kva_to_index (sym e))
        (subst (λ k. Placed s b size k h (record_size a size g)) (sym e) p)

  kmalloc_pages_lem :
      pages_of size * page_size ≤ kernel_heap_max - h.page_alloc_break
      → (va : ℕ) × (g : Kheap) × (kmalloc_pages size (pages_of size) h ≡ ok (va, g))
        × Placed s b size va h g
  kmalloc_pages_lem room =
      let n = pages_of size in
      let (va, e, both) = find_customfit_lem s b h v n (pages_of-pos size (omega arith) small) in
      elim (ℕ_discrete va 0) [
        | no nz ↦
            let f = both.0 nz in
            let a = kva_to_index va in
            let (g, q, w) = get_pages_lem n a h (omega (arith, f.room.last, v.limit)) frames in
            (
              va,
              record_size (kva_to_index va) size g,
              kmalloc_pages-hole size n va h g e nz (ap (λ x. get_pages n x h) f.aligned ∙ q),
              subst (λ x. Placed s b size x h (record_size a size g)) (sym f.aligned)
                  (place b a g (omega arith) v.limit f.room.first f.room.last f.room.free
                    (subst (λ x. Got a n (record h { page_alloc_break = x }) g) v.brk w)),
            )
        | yes z ↦
            let up = record h { page_alloc_break = h.page_alloc_break + n * page_size } in
            let (g, q, w) = get_pages_lem n b up (omega (arith, v.brk)) frames in
            (
              h.page_alloc_break,
              record_size (kva_to_index h.page_alloc_break) size g,
              kmalloc_pages-break size n h g (e ∙ ap some z) (omega (arith, v.brk))
                  (ap (λ x. get_pages n x up) v.brk ∙ q),
              place_at b h.page_alloc_break g v.brk (
                  place (b + n) b g (omega arith) (omega (arith, v.brk)) v.ordered (omega arith)
                    (λ j p q. high-IsFree s b h v j p)
                    (subst (λ x. Got b n (record h { page_alloc_break = x }) g)
                      (omega (arith, v.brk)) w)),
            )
      ]

  kmalloc-refused :
      (d : BlockAllocator)
      → kernel_heap_max - h.page_alloc_break < pages_of size * page_size
      → kmalloc d size h ≡ ok (0, h)
  unfolding kmalloc
  kmalloc-refused d lt = ground (arith, big)

  kmalloc-pages :
      (d : BlockAllocator)
      → pages_of size * page_size ≤ kernel_heap_max - h.page_alloc_break
      → kmalloc d size h ≡ kmalloc_pages size (pages_of size) h
  unfolding kmalloc
  kmalloc-pages d le = ground (arith, big)

-- On a well-formed heap, a request of more than 2048 and at most 0xFFFFF000 bytes, with as many
-- free frames as it has pages: where its pages exceed what is left above the break, kmalloc
-- returns NULL and leaves the heap as it was, whatever holes there are. Where they do not, kmalloc
-- returns and does not panic; the address is that of a managed page whose pages were free, `size`
-- is recorded there and no other record changes, and the heap stays well formed, so that the new
-- pages are present and meet no other allocation.
pub kmalloc_lem :
    (s b size : ℕ) (h : Kheap) (d : BlockAllocator)
    → HeapValid s b h
    → dyn_alloc_max_block_size < size
    → size ≤ 0xFFFFF000
    → pages_of size ≤ h.free_frames
    → (kernel_heap_max - h.page_alloc_break < pages_of size * page_size
        → kmalloc d size h ≡ ok (0, h))
      × (pages_of size * page_size ≤ kernel_heap_max - h.page_alloc_break
          → (va : ℕ) × (g : Kheap) × (kmalloc d size h ≡ ok (va, g)) × Placed s b size va h g)
kmalloc_lem s b size h d v big small frames = (
  kmalloc-refused s b size h v big small frames d,
  λ le.
      let (va, g, e, p) = kmalloc_pages_lem s b size h v big small frames le in
      (va, g, kmalloc-pages s b size h v big small frames d le ∙ e, p),
)
