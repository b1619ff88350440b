-- ===== src/Kheap/Fit/Sound.antt =====
-- find_customfit of kern/mem/kheap.c returns, and finds room where there is some.
use fos_operational_system_f.Common.{
  ℕ, zero, suc, ◌+◌, ◌%◌, ◌^◌, ◌≤◌, ◌<◌, ◌≡◌, ◌≢◌, refl, ap, subst, ◌∙◌, ◌⊎◌, inl, inr, arith,
}
use native.Mathlib.Decide.{dec_lt, ℕ_discrete}
use fos_operational_system_f.Mmu.{page_size}
use fos_operational_system_f.Kheap.State.{Kheap}
use fos_operational_system_f.Kheap.Fit.{free_run}
use fos_operational_system_f.Kheap.Valid.{kva, HeapValid, kva-index}

module _ (s b : ℕ) (h : Kheap) (v : HeapValid s b h) where
  -- What the inner loop counts: the free pages from `i` up to an allocation or the break.
  pub record FreeRun (i r : ℕ) : Type 0 where
    pub inside : i + r ≤ b
    pub empty : (j : ℕ) → i ≤ j → j < i + r → h.kallocation_sizes j ≡ 0
    pub ends : (i + r ≡ b) ⊎ (h.kallocation_sizes (i + r) ≢ 0)

  free_run_step :
      (fuel i : ℕ)
      → i < b
      → h.kallocation_sizes i ≡ 0
      → free_run (suc fuel) h (kva i) ≡ suc (free_run fuel h (kva (suc i)))
  unfolding free_run
  free_run_step fuel i lt z =
      ground
        (arith, v.brk, z, ap h.kallocation_sizes (kva-index i), ap (free_run fuel h) (kva_suc i lt))
    where
      kva_suc : (i : ℕ) → i < b → (kva i + page_size) % 2 ^ 32 ≡ kva (suc i)
      kva_suc i lt = omega (arith, v.limit)

  free_run_stop : (fuel i : ℕ) → (i ≡ b) ⊎ (h.kallocation_sizes i ≢ 0) → free_run fuel h (kva i) ≡ 0
  unfolding free_run
  free_run_stop zero i e = refl
  free_run_stop (suc fuel) i (inl e) = ground (arith, v.brk, e)
  free_run_stop (suc fuel) i (inr e) = ground (arith, e, ap h.kallocation_sizes (kva-index i))

  pub free_run_lem : (fuel i : ℕ) → i ≤ b → b ≤ i + fuel → FreeRun i (free_run fuel h (kva i))
  free_run_lem zero i le f = rw (free_run_stop zero i (inl (omega arith))) (record {
    inside = omega arith;
    empty = λ j p q. absurd (omega arith);
    ends = inl (omega arith);
  })
  free_run_lem (suc fuel) i le f = elim (at_end i le) [
    | inl e ↦
        rw (free_run_stop (suc fuel) i e) (record {
          inside = omega arith;
          empty = λ j p q. absurd (omega arith);
          ends = stopped i e;
        })
    | inr (lt, z) ↦ rw (free_run_step fuel i lt z) (
        FreeRun_suc i (free_run fuel h (kva (suc i))) z
          (free_run_lem fuel (suc i) lt (omega arith)))
  ]
    where
      at_end :
          (i : ℕ)
          → i ≤ b
          → ((i ≡ b) ⊎ (h.kallocation_sizes i ≢ 0)) ⊎ ((i < b) × (h.kallocation_sizes i ≡ 0))
      at_end i le = elim (ℕ_discrete (h.kallocation_sizes i) 0) [
        | no n ↦ inl (inr n)
        | yes z ↦ elim (dec_lt i b) [ yes lt ↦ inr (lt, z) | no k ↦ inl (inl (omega arith)) ]
      ]

      stopped :
          (i : ℕ)
          → (i ≡ b) ⊎ (h.kallocation_sizes i ≢ 0)
          → (i + 0 ≡ b) ⊎ (h.kallocation_sizes (i + 0) ≢ 0)
      stopped i (inl e) = inl (omega arith)
      stopped i (inr e) =
          inr (subst (λ k. h.kallocation_sizes k ≢ 0) {x = i} {y = i + 0} (omega arith) e)

      FreeRun_suc : (i r : ℕ) → h.kallocation_sizes i ≡ 0 → FreeRun (suc i) r → FreeRun i (suc r)
      FreeRun_suc i r z w = record {
        inside = omega (arith, w.inside);
        empty = λ j p q. elim (ℕ_discrete j i) [
          | yes e ↦ ap h.kallocation_sizes e ∙ z
          | no n ↦ w.empty j (omega arith) (omega arith)
        ];
        ends =
            subst (λ k. (k ≡ b) ⊎ (h.kallocation_sizes k ≢ 0)) {x = suc i + r} {y = i + suc r}
              (omega arith) w.ends;
      }
