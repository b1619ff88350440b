-- ===== src/Kheap/Fit/Search.antt =====
-- The search of find_customfit (kern/mem/kheap.c): it ends, what it returns is room for the
-- request, and it fails only where there is none.
use fos_operational_system_f.Common.{
  ℕ, zero, suc, ◌+◌, ◌≤◌, ◌<◌, ◌≡◌, ◌≢◌, refl, ap, subst, sym, ◌∙◌, ◌⊎◌, inl, inr, some, arith,
}
use native.Mathlib.Decide.{dec_lt, ℕ_discrete}
use fos_operational_system_f.Kheap.State.{Kheap, kva_to_index, pages_of, kheap_pages_count}
use fos_operational_system_f.Kheap.Fit.{
  Best, free_run, consider, customfit_loop, choose, find_customfit,
}
use fos_operational_system_f.Kheap.Valid.{kva, HeapValid, Room, kva-index, kva-next}
use fos_operational_system_f.Kheap.Fit.Sound.{FreeRun, free_run_lem}

-- How the two tests of `consider` come out.
consider_first :
    (n va size : ℕ) (c : Best)
    → ((consider n va size c).first_exact_va ≡ c.first_exact_va)
      ⊎ (((consider n va size c).first_exact_va ≡ va) × (size ≡ n))
unfolding consider
consider_first n va size c = ground arith

consider_worst :
    (n va size : ℕ) (c : Best)
    → (((consider n va size c).worst_size ≡ c.worst_size)
        × ((consider n va size c).worst_va ≡ c.worst_va)
        × (n ≤ size → size ≤ c.worst_size))
      ⊎ (((consider n va size c).worst_size ≡ size)
          × ((consider n va size c).worst_va ≡ va)
          × (n ≤ size)
          × (c.worst_size < size))
unfolding consider
consider_worst n va size c = elim (dec_lt size n) [
  | yes p ↦ inl (ground arith, ground arith, λ q. absurd (omega arith))
  | no p ↦ elim (dec_lt c.worst_size size) [
    | yes q ↦ inr (ground arith, ground arith, ground arith, ground arith)
    | no q ↦ inl (ground arith, ground arith, λ k. omega arith)
  ]
]

choose_cases :
    (n : ℕ) (c : Best)
    → ((c.first_exact_va ≢ 0) × (choose n c ≡ c.first_exact_va))
      ⊎ ((n ≤ c.worst_size) × (choose n c ≡ c.worst_va))
      ⊎ ((c.worst_size < n) × (choose n c ≡ 0))
unfolding choose
choose_cases n c = elim (ℕ_discrete c.first_exact_va 0) [
  | no x ↦ inl (x, ground arith)
  | yes x ↦ elim (dec_lt c.worst_size n) [
    | no y ↦ inr (inl (omega arith, ground arith))
    | yes y ↦ inr (inr (y, ground arith))
  ]
]

-- `va` is the address of room for `n` pages.
pub record Fits (s b : ℕ) (h : Kheap) (n va : ℕ) : Type 0 where
  pub aligned : va ≡ kva (kva_to_index va)
  pub room : Room s b n (kva_to_index va) h

module _ (s b : ℕ) (h : Kheap) (v : HeapValid s b h) (n : ℕ) (pos : 0 < n) where
  -- The state of the loop at page `i`, where no allocation is open.
  record Good (i : ℕ) (c : Best) : Type 0 where
    exact : c.first_exact_va ≢ 0 → Fits s b h n c.first_exact_va
    enough : 0 < c.worst_size → n ≤ c.worst_size
    worst : 0 < c.worst_size → Fits s b h n c.worst_va
    complete : (a : ℕ) → a < i → Room s b n a h → n ≤ c.worst_size

  abbrev Closed : ℕ → Type 0
  Closed i = (k : ℕ) → k < i → h.kallocation_sizes k ≢ 0 → k + pages_of (h.kallocation_sizes k) ≤ i

  kva-Fits : (i : ℕ) → Room s b n i h → Fits s b h n (kva i)
  kva-Fits i r = record {
    aligned = ap kva (sym (kva-index i));
    room = subst (λ k. Room s b n k h) (sym (kva-index i)) r;
  }

  run_Room : (i r : ℕ) → s ≤ i → Closed i → FreeRun s b h v i r → n ≤ r → Room s b n i h
  run_Room i r le c w k = record {
    first = le;
    last = omega (arith, w.inside);
    free = λ j p q a lt nz. elim (dec_lt a i) [
      | yes x ↦ omega (arith, c a x nz)
      | no x ↦ absurd (nz (w.empty a (omega arith) (omega arith)))
    ];
  }

  -- Room that starts in a free run ends in it.
  Room-le : (i r a : ℕ) → FreeRun s b h v i r → i ≤ a → a < i + r → Room s b n a h → a + n ≤ i + r
  Room-le i r a w p q m = elim (dec_lt (i + r) (a + n)) [
    | no k ↦ omega arith
    | yes k ↦ elim w.ends [
      | inl e ↦ omega (arith, m.last)
      | inr nz ↦ absurd (
          omega (
            arith,
            m.free (i + r) (omega arith) k (i + r) (omega arith) nz,
            v.some_page (i + r) nz,
          ))
    ]
  ]

  consider-Good :
      (i r : ℕ) (c : Best)
      → s ≤ i
      → Closed i
      → FreeRun s b h v i r
      → Good i c
      → Good (i + r) (consider n (kva i) r c)
  consider-Good i r c le cl w g = record {
    exact = λ nz. elim (consider_first n (kva i) r c) [
      | inl e ↦ subst (Fits s b h n) (sym e) (g.exact (rw e at nz))
      | inr (e, q) ↦ subst (Fits s b h n) (sym e) (kva-Fits i (run_Room i r le cl w (omega arith)))
    ];
    enough = λ p. elim (consider_worst n (kva i) r c) [
      | inl (e, f, k) ↦ omega (arith, g.enough (omega arith))
      | inr (e, f, k, l) ↦ omega arith
    ];
    worst = λ p. elim (consider_worst n (kva i) r c) [
      | inl (e, f, k) ↦ subst (Fits s b h n) (sym f) (g.worst (omega arith))
      | inr (e, f, k, l) ↦ subst (Fits s b h n) (sym f) (kva-Fits i (run_Room i r le cl w k))
    ];
    complete = λ a lt m. elim (dec_lt a i) [
      | yes x ↦ elim (consider_worst n (kva i) r c) [
        | inl (e, f, k) ↦ omega (arith, g.complete a x m)
        | inr (e, f, k, l) ↦ omega arith
      ]
      | no x ↦
          let le' = Room-le i r a w (omega arith) lt m in
          elim (consider_worst n (kva i) r c) [
            | inl (e, f, k) ↦ omega (arith, k (omega arith))
            | inr (e, f, k, l) ↦ omega arith
          ]
    ];
  }

  -- An allocation is stepped over.
  used-Good :
      (i : ℕ) (c : Best)
      → h.kallocation_sizes i ≢ 0
      → Good i c
      → Good (i + pages_of (h.kallocation_sizes i)) c
  used-Good i c nz g = record {
    exact = g.exact;
    enough = g.enough;
    worst = g.worst;
    complete = λ a lt m. elim (dec_lt a i) [
      | yes x ↦ g.complete a x m
      | no x ↦ absurd (omega (arith, m.free a (omega arith) (omega arith) i (omega arith) nz))
    ];
  }

  used-Closed : (i : ℕ) → h.kallocation_sizes i ≢ 0 → Closed (i + pages_of (h.kallocation_sizes i))
  used-Closed i nz k lt nk = elim (dec_lt k i) [
    | yes x ↦ omega (arith, v.apart k i nk nz x)
    | no x ↦ elim (ℕ_discrete k i) [
      | yes e ↦ rw e (omega arith)
      | no ne ↦ absurd (omega (arith, v.apart i k nz nk (omega arith)))
    ]
  ]

  run-Closed : (i r : ℕ) → Closed i → FreeRun s b h v i r → Closed (i + r)
  run-Closed i r cl w k lt nk = elim (dec_lt k i) [
    | yes x ↦ omega (arith, cl k x nk)
    | no x ↦ absurd (nk (w.empty k (omega arith) lt))
  ]

  step_used :
      (fuel i : ℕ) (c : Best)
      → i < b
      → h.kallocation_sizes i ≢ 0
      → customfit_loop (suc fuel) h n (kva i) c
        ≡ customfit_loop fuel h n (kva (i + pages_of (h.kallocation_sizes i))) c
  unfolding customfit_loop
  step_used fuel i c lt nz =
      let e : h.kallocation_sizes (kva_to_index (kva i)) ≡ h.kallocation_sizes i =
        ap h.kallocation_sizes (kva-index i) in
      let q = kva-next i (pages_of (h.kallocation_sizes i)) b (v.high i nz) v.limit in
      ground (arith, v.brk, e, nz, ap (λ va. customfit_loop fuel h n va c) q)

  step_free :
      (fuel i : ℕ) (c : Best)
      → i < b
      → h.kallocation_sizes i ≡ 0
      → FreeRun s b h v i (free_run kheap_pages_count h (kva i))
      → let r = free_run kheap_pages_count h (kva i) in
        customfit_loop (suc fuel) h n (kva i) c
        ≡ customfit_loop fuel h n (kva (i + r)) (consider n (kva i) r c)
  unfolding customfit_loop
  step_free fuel i c lt z w =
      let r = free_run kheap_pages_count h (kva i) in
      let e : h.kallocation_sizes (kva_to_index (kva i)) ≡ h.kallocation_sizes i =
        ap h.kallocation_sizes (kva-index i) in
      let q = kva-next i r b w.inside v.limit in
      ground (arith, v.brk, e, z, ap (λ va. customfit_loop fuel h n va (consider n (kva i) r c)) q)

  step_end : (fuel : ℕ) (c : Best) → customfit_loop (suc fuel) h n (kva b) c ≡ some c
  unfolding customfit_loop
  step_end fuel c = ground (arith, v.brk)

  run_pos : (i r : ℕ) → i < b → h.kallocation_sizes i ≡ 0 → FreeRun s b h v i r → 0 < r
  run_pos i zero lt z w = elim w.ends [
    | inl e ↦ absurd (omega arith)
    | inr nz ↦
        absurd (nz (subst (λ k. h.kallocation_sizes k ≡ 0) {x = i} {y = i + 0} (omega arith) z))
  ]
  run_pos i (suc r) lt z w = omega arith

  customfit_loop_lem :
      (fuel i : ℕ) (c : Best)
      → s ≤ i
      → i ≤ b
      → b < i + fuel
      → Closed i
      → Good i c
      → (d : Best) × (customfit_loop fuel h n (kva i) c ≡ some d) × Good b d
  customfit_loop_lem zero i c lo hi f cl g = absurd (omega arith)
  customfit_loop_lem (suc fuel) i c lo hi f cl g = elim (dec_lt i b) [
    | no k ↦
        let e : i ≡ b = omega arith in
        (
          c,
          ap (λ (j : ℕ). customfit_loop (suc fuel) h n (kva j) c) e ∙ step_end fuel c,
          subst (λ j. Good j c) e g,
        )
    | yes lt ↦ elim (ℕ_discrete (h.kallocation_sizes i) 0) [
      | no nz ↦
          let p = v.some_page i nz in
          let (d, q, w) =
            customfit_loop_lem fuel (i + pages_of (h.kallocation_sizes i)) c (omega arith)
              (v.high i nz) (omega arith) (used-Closed i nz) (used-Good i c nz g) in
          (d, step_used fuel i c lt nz ∙ q, w)
      | yes z ↦
          let w = free_run_lem s b h v kheap_pages_count i hi (omega (arith, v.limit)) in
          let p = run_pos i (free_run kheap_pages_count h (kva i)) lt z w in
          let (d, q, y) =
            customfit_loop_lem fuel (i + free_run kheap_pages_count h (kva i))
              (consider n (kva i) (free_run kheap_pages_count h (kva i)) c) (omega arith) w.inside
              (omega arith) (run-Closed i (free_run kheap_pages_count h (kva i)) cl w)
              (consider-Good i (free_run kheap_pages_count h (kva i)) c lo cl w g) in
          (d, step_free fuel i c lt z w ∙ q, y)
    ]
  ]

  Fits-pos : (va : ℕ) → Fits s b h n va → va ≢ 0
  Fits-pos va f e = omega (arith, f.aligned)

  chosen :
      (d : Best)
      → Good b d
      → (choose n d ≢ 0 → Fits s b h n (choose n d)) × (choose n d ≡ 0 → (a : ℕ) → ¬ Room s b n a h)
  chosen d g = elim (choose_cases n d) [
    | inl (nz, e) ↦ rw e (λ k. g.exact nz, λ z. absurd (nz z))
    | inr (inl (le, e)) ↦
        let w = g.worst (omega arith) in rw e (λ k. w, λ z. absurd (Fits-pos d.worst_va w z))
    | inr (inr (lt, e)) ↦
        rw e (λ k. absurd (k refl), λ z a m. omega (arith, g.complete a (omega (arith, m.last)) m))
  ]

  -- On a well-formed heap the search for `n` pages, at least one, ends. If it returns an address,
  -- `n` managed pages from there on are free; if it returns 0, no `n` pages in a row are.
  pub find_customfit_lem :
      (va : ℕ) × (find_customfit h n ≡ some va)
      × ((va ≢ 0 → Fits s b h n va) × (va ≡ 0 → (a : ℕ) → ¬ Room s b n a h))
  unfolding find_customfit
  find_customfit_lem =
      let best : Best = record { first_exact_va = 0; worst_va = 0; worst_size = 0 } in
      let (d, q, g) =
        customfit_loop_lem (kheap_pages_count + 1) s best (omega arith) v.ordered
          (omega (arith, v.limit)) (λ k lt nz. absurd (omega (arith, v.low k nz)))
          (record {
            exact = λ nz. absurd (nz refl);
            enough = λ p. absurd (omega arith);
            worst = λ p. absurd (omega arith);
            complete = λ a lt m. absurd (omega (arith, m.first));
          }) in
      (choose n d, ground (arith, v.start, q), chosen d g)
