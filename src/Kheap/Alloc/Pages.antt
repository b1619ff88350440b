-- ===== src/Kheap/Alloc/Pages.antt =====
-- kern/mem/kheap.c: the loops over get_page and return_page in kmalloc, kfree and krealloc.
use fos_operational_system_f.Common.{
  ℕ, zero, suc, ◌+◌, ◌-◌, ◌/◌, ◌%◌, ◌^◌, ◌≤◌, ◌<◌, ◌≡◌, refl, ap, subst, sym, ◌∙◌, ◌⊎◌, inl, inr,
  true, false, arith, update, Bool-cases,
}
use native.Mathlib.Decide.{ℕ_discrete}
use fos_operational_system_f.Common.Outcome.{ok}
use fos_operational_system_f.Mmu.{page_size}
use fos_operational_system_f.Kheap.State.{Kheap, kheap_pages_count, get_page, return_page}
use fos_operational_system_f.Kheap.Alloc.{get_pages, return_pages}
use fos_operational_system_f.Kheap.Valid.{kva}

-- The heap's own records and its content are the same.
pub record SameRecords (h g : Kheap) : Type 0 where
  pub sizes : (i : ℕ) → g.kallocation_sizes i ≡ h.kallocation_sizes i
  pub start : g.page_alloc_start ≡ h.page_alloc_start
  pub brk : g.page_alloc_break ≡ h.page_alloc_break
  pub bytes : g.bytes ≡ h.bytes

-- The `n` pages from page `i` on have become present, and no page has stopped to be.
pub record Got (i n : ℕ) (h g : Kheap) : Type 0 where
  pub same : SameRecords h g
  pub now : (j : ℕ) → i ≤ j → j < i + n → g.present (kva j / page_size) ≡ true
  pub kept : (p : ℕ) → h.present p ≡ true → g.present p ≡ true

-- The `n` pages from page `i` on are no longer present, and the others are as they were.
pub record Returned (i n : ℕ) (h g : Kheap) : Type 0 where
  pub same : SameRecords h g
  pub gone : (j : ℕ) → i ≤ j → j < i + n → g.present (kva j / page_size) ≡ false
  pub kept :
      (j : ℕ)
      → (j < i) ⊎ (i + n ≤ j)
      → g.present (kva j / page_size) ≡ h.present (kva j / page_size)

SameRecords-refl : (h : Kheap) → SameRecords h h
SameRecords-refl h = record { sizes = λ i. refl; start = refl; brk = refl; bytes = refl }

get_page_lem :
    (i : ℕ) (h : Kheap)
    → 0 < h.free_frames
    → (g : Kheap) × (get_page (kva i) h ≡ ok g) × Got i 1 h g × (h.free_frames ≤ suc g.free_frames)
unfolding get_page
get_page_lem i h pos = elim (Bool-cases (h.present (kva i / page_size))) [
  | inl t ↦ (
    h,
    ground (arith, t),
    record {
      same = SameRecords-refl h;
      now = λ j p q.
          subst (λ k. h.present (kva k / page_size) ≡ true) {x = i} {y = j} (omega arith) t;
      kept = λ p q. q;
    },
    omega arith,
  )
  | inr f ↦ (
    record h {
      present = update h.present (kva i / page_size) true;
      free_frames = h.free_frames - 1;
    },
    ground (arith, f),
    record {
      same = record { sizes = λ i. refl; start = refl; brk = refl; bytes = refl };
      now = λ j p q. ground arith;
      kept = λ p q. ground (arith, q);
    },
    omega arith,
  )
]

-- With frames enough, the loop of kmalloc over get_page makes its pages present.
pub get_pages_lem :
    (n i : ℕ) (h : Kheap)
    → i + n ≤ kheap_pages_count
    → n ≤ h.free_frames
    → (g : Kheap) × (get_pages n (kva i) h ≡ ok g) × Got i n h g
unfolding get_pages
get_pages_lem zero i h le f = (
  h,
  refl,
  record { same = SameRecords-refl h; now = λ j p q. absurd (omega arith); kept = λ p q. q },
)
get_pages_lem (suc n) i h le f =
    let (g, e, w, m) = get_page_lem i h (omega arith) in
    let (k, e', w') = get_pages_lem n (suc i) g (omega arith) (omega arith) in
    (
      k,
      rw e (ap (λ va. get_pages n va g) (next i (omega arith)) ∙ e'),
      record {
        same = record {
          sizes = λ j. w'.same.sizes j ∙ w.same.sizes j;
          start = w'.same.start ∙ w.same.start;
          brk = w'.same.brk ∙ w.same.brk;
          bytes = w'.same.bytes ∙ w.same.bytes;
        };
        now = λ j p q. elim (ℕ_discrete j i) [
          | yes x ↦ w'.kept (kva j / page_size) (w.now j (omega arith) (omega arith))
          | no x ↦ w'.now j (omega arith) (omega arith)
        ];
        kept = λ p q. w'.kept p (w.kept p q);
      },
    )
  where
    next : (i : ℕ) → i < kheap_pages_count → (kva i + page_size) % 2 ^ 32 ≡ kva (suc i)
    next i lt = omega arith

return_page_lem : (i : ℕ) (h : Kheap) → Returned i 1 h (return_page (kva i) h)
unfolding return_page
return_page_lem i h = elim (Bool-cases (h.present (kva i / page_size))) [
  | inl t ↦ rw t (record {
    same = record { sizes = λ i. refl; start = refl; brk = refl; bytes = refl };
    gone = λ j p q. ground arith;
    kept = λ j p. ground arith;
  })
  | inr f ↦ rw f (record {
    same = SameRecords-refl h;
    gone =
        λ j p q. subst (λ k. h.present (kva k / page_size) ≡ false) {x = i} {y = j} (omega arith) f;
    kept = λ j p. refl;
  })
]

pub return_pages_lem :
    (n i : ℕ) (h : Kheap) → i + n ≤ kheap_pages_count → Returned i n h (return_pages n (kva i) h)
unfolding return_pages
return_pages_lem zero i h le = record {
  same = SameRecords-refl h;
  gone = λ j p q. absurd (omega arith);
  kept = λ j p. refl;
}
return_pages_lem (suc n) i h le =
    let w = return_page_lem i h in
    let w' =
      subst
        (λ va.
          Returned (suc i) n (return_page (kva i) h) (return_pages n va (return_page (kva i) h)))
        (sym (next i (omega arith)))
        (return_pages_lem n (suc i) (return_page (kva i) h) (omega arith)) in
    record {
      same = record {
        sizes = λ j. w'.same.sizes j ∙ w.same.sizes j;
        start = w'.same.start ∙ w.same.start;
        brk = w'.same.brk ∙ w.same.brk;
        bytes = w'.same.bytes ∙ w.same.bytes;
      };
      gone = λ j p q. elim (ℕ_discrete j i) [
        | yes x ↦ w'.kept j (inl (omega arith)) ∙ w.gone j (omega arith) (omega arith)
        | no x ↦ w'.gone j (omega arith) (omega arith)
      ];
      kept = λ j p. elim p [
        | inl lt ↦ w'.kept j (inl (omega arith)) ∙ w.kept j (inl lt)
        | inr q ↦ w'.kept j (inr (omega arith)) ∙ w.kept j (inr (omega arith))
      ];
    }
  where
    next : (i : ℕ) → i < kheap_pages_count → (kva i + page_size) % 2 ^ 32 ≡ kva (suc i)
    next i lt = omega arith
