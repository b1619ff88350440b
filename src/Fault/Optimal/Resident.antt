-- ===== src/Fault/Optimal/Resident.antt =====
-- kern/trap/fault_handler.c, get_optimal_num_faults: one reference, and the whole simulation.
use fos_operational_system_f.Common.{
  ℕ, zero, suc, ◌+◌, ◌*◌, ◌%◌, ◌^◌, ◌≤◌, ◌<◌, ◌≡◌, ◌≢◌, refl, subst, ap, sym, ◌∙◌, ◌⊎◌, inl, inr,
  true, false, some, List, [], ◌∷◌, ◌++◌, arith, contains, length, get_elem?, Bool-cases,
  length-append, List-cases,
}
use native.Mathlib.Decide.{dec_lt}
use fos_operational_system_f.Common.Outcome.{ok, panic}
use fos_operational_system_f.Kheap.State.{Kheap}
use fos_operational_system_f.Kheap.Alloc.{BlockAllocator, kmalloc}
use fos_operational_system_f.Fault.Optimal.{
  furthest, store, reference, references, copy_ws, get_optimal_num_faults,
}
use fos_operational_system_f.Fault.Optimal.Furthest.{UsedBefore, NoneLater-UsedBefore, furthest_lem}

-- What storing at an index within the list gives.
store_lem :
    (ws : List ℕ) (i va r : ℕ)
    → get_elem? ws i ≡ some va
    → (l : List ℕ) × (store ws i r ≡ some l) × (length l ≡ length ws) × (contains r l ≡ true)
unfolding store contains
store_lem [] i va r e = absurd (ground (arith, e))
store_lem (x ∷ ws) zero va r e = (r ∷ ws, refl, refl, ground arith)
store_lem (x ∷ ws) (suc i) va r e =
    let (l, q, n, c) = store_lem ws i va r e in
    (x ∷ l, ground (arith, q), omega (arith, n), ground (arith, c))

contains-append : (r : ℕ) (ws : List ℕ) → contains r (ws ++ r ∷ []) ≡ true
unfolding contains
contains-append r [] = ground arith
contains-append r (x ∷ ws) = ground (arith, contains-append r ws)

-- The working set `l` and count `m` after a reference to `r`, with `rs` to come, from `ws` and `n`.
pub record Referenced (max r : ℕ) (rs ws : List ℕ) (n : ℕ) (l : List ℕ) (m : ℕ) : Type 0 where
  pub resident : contains r l ≡ true
  pub bounded : length l ≤ max
  pub hit : contains r ws ≡ true → (l ≡ ws) × (m ≡ n)
  pub placed : contains r ws ≡ false → length ws < max → (l ≡ ws ++ r ∷ []) × (m ≡ suc n)
  pub replaced :
      contains r ws ≡ false
      → length ws ≡ max
      → (i : ℕ) × (va : ℕ) × (get_elem? ws i ≡ some va)
        × (store ws i r ≡ some l)
        × (m ≡ suc n)
        × UsedBefore rs ws va

reference-evicts :
    (max r : ℕ) (rs ws : List ℕ) (n : ℕ) (l : List ℕ)
    → contains r ws ≡ false
    → length ws ≡ max
    → store ws (furthest rs ws 0 0 0) r ≡ some l
    → reference max r rs (ws, n) ≡ some (l, n + 1)
unfolding reference
reference-evicts max r rs ws n l c e q = rw (reference, c, q) (ground (arith, e))

evicted :
    (max r : ℕ) (rs : List ℕ) (x : ℕ) (ws : List ℕ) (n : ℕ)
    → length rs ≤ 1000000000
    → contains r (x ∷ ws) ≡ false
    → length (x ∷ ws) ≡ max
    → (l : List ℕ) × (m : ℕ) × (reference max r rs (x ∷ ws, n) ≡ some (l, m))
      × Referenced max r rs (x ∷ ws) n l m
evicted max r rs x ws n short c e =
    let (va, g, h) = furthest_lem rs x ws in
    let (l, q, k, b) = store_lem (x ∷ ws) (furthest rs (x ∷ ws) 0 0 0) va r g in
    (
      l,
      n + 1,
      reference-evicts max r rs (x ∷ ws) n l c e q,
      record {
        resident = b;
        bounded = omega (arith, k, e);
        hit = λ t. absurd (ground (arith, t, c));
        placed = λ f lt. absurd (omega arith);
        replaced = λ f s. (
          furthest rs (x ∷ ws) 0 0 0,
          va,
          g,
          q,
          omega arith,
          NoneLater-UsedBefore rs (x ∷ ws) va short h,
        );
      },
    )

-- One reference of the simulation, with room for at least one page and no more pages than there
-- is room for: the page is in the working set afterwards, which is no larger than its maximum.
-- If the page was there, nothing changes. Otherwise one fault is counted: while there is room the
-- page is added at the end, and when there is none it takes the place of a page of the working set
-- such that, wherever that page occurs in the references still to come, each page of the working
-- set occurs there or before. At most 10 ^ 9 references are still to come.
pub reference_lem :
    (max r : ℕ) (rs ws : List ℕ) (n : ℕ)
    → length rs ≤ 1000000000
    → 0 < max
    → length ws ≤ max
    → (l : List ℕ) × (m : ℕ) × (reference max r rs (ws, n) ≡ some (l, m))
      × Referenced max r rs ws n l m
unfolding reference
reference_lem max r rs ws n short pos le = elim (Bool-cases (contains r ws)) [
  | inl t ↦ (
    ws,
    n,
    ground (arith, t),
    record {
      resident = t;
      bounded = le;
      hit = λ h. (refl, refl);
      placed = λ f lt. absurd (ground (arith, t, f));
      replaced = λ f s. absurd (ground (arith, t, f));
    },
  )
  | inr f ↦ elim (dec_lt (length ws) max) [
    | yes lt ↦ (
      ws ++ r ∷ [],
      suc n,
      ground (arith, f),
      record {
        resident = contains-append r ws;
        bounded = omega (arith, length-append ws (r ∷ []));
        hit = λ t. absurd (ground (arith, t, f));
        placed = λ g q. (refl, refl);
        replaced = λ g s. absurd (omega arith);
      },
    )
    | no k ↦ elim (List-cases ws) [
      | inl z ↦ absurd (omega (arith, ap length z))
      | inr (x, xs, q) ↦
          subst
            (λ w.
              (l : List ℕ) × (m : ℕ) × (reference max r rs (w, n) ≡ some (l, m))
              × Referenced max r rs w n l m)
            (sym q)
            (evicted max r rs x xs n short (sym (ap (contains r) q) ∙ f)
              (sym (ap length q) ∙ omega arith))
    ]
  ]
]

references_lem :
    (max : ℕ) (rs ws : List ℕ) (n : ℕ)
    → length rs ≤ 1000000000
    → 0 < max
    → length ws ≤ max
    → (l : List ℕ) × (m : ℕ) × (references max rs (ws, n) ≡ some (l, m))
      × (length l ≤ max)
      × (n ≤ m)
      × (m ≤ n + length rs)
unfolding references
references_lem max [] ws n short pos le = (ws, n, refl, le, omega arith, omega arith)
references_lem max (r ∷ rs) ws n short pos le =
    let (l, m, e, w) = reference_lem max r rs ws n (omega (arith, short)) pos le in
    let (k, c, q, b, lo, hi) = references_lem max rs l m (omega (arith, short)) pos w.bounded in
    let step : (m ≡ n) ⊎ (m ≡ suc n) = counted max r rs ws n l m le w in
    (k, c, rw (references, e) q, b, ground (arith, lo, step), ground (arith, hi, step))
  where
    counted :
        (max r : ℕ) (rs ws : List ℕ) (n : ℕ) (l : List ℕ) (m : ℕ)
        → length ws ≤ max
        → Referenced max r rs ws n l m
        → (m ≡ n) ⊎ (m ≡ suc n)
    counted max r rs ws n l m le w = elim (Bool-cases (contains r ws)) [
      | inl t ↦ inl ((w.hit t).1)
      | inr f ↦ elim (dec_lt (length ws) max) [
        | yes lt ↦ inr ((w.placed f lt).1)
        | no k ↦ let (i, va, g, s, e, h) = w.replaced f (omega arith) in inr e
      ]
    ]

copy_ws-le : (max : ℕ) (l : List ℕ) → length (copy_ws max l) ≤ max
unfolding copy_ws
copy_ws-le zero l = omega arith
copy_ws-le (suc max) [] = omega arith
copy_ws-le (suc max) (va ∷ l) = omega (arith, copy_ws-le max l)

-- With room for at least one page, where kmalloc gives an address for the copy of the references,
-- get_optimal_num_faults returns, it leaves the heap as kmalloc left it, and the faults are no
-- more than the references.
get_optimal_num_faults_lem :
    (d : BlockAllocator) (init : List ℕ) (max : ℕ) (refs : List ℕ) (h g : Kheap) (p : ℕ)
    → length refs ≤ 1000000000
    → 0 < max
    → kmalloc d (4 * length refs % 2 ^ 32) h ≡ ok (p, g)
    → p ≢ 0
    → (n : ℕ) × (get_optimal_num_faults d init max refs h ≡ ok (n, g)) × (n ≤ length refs)
unfolding get_optimal_num_faults
get_optimal_num_faults_lem d init max refs h g p short pos e nz =
    let (l, n, q, _, _, hi) =
      references_lem max refs (copy_ws max init) 0 short pos (copy_ws-le max init) in
    (n, ground (arith, e, nz, q), omega arith)

kmalloc-zero : (d : BlockAllocator) (h : Kheap) → kmalloc d 0 h ≡ ok (0, h)
unfolding kmalloc
kmalloc-zero d h = ground arith

-- With no reference at all, get_optimal_num_faults panics: kmalloc of 0 bytes returns NULL.
get_optimal_num_faults-empty :
    (d : BlockAllocator) (init : List ℕ) (max : ℕ) (h : Kheap)
    → get_optimal_num_faults d init max [] h ≡ panic
unfolding get_optimal_num_faults
get_optimal_num_faults-empty d init max h = ground (arith, kmalloc-zero d h)
