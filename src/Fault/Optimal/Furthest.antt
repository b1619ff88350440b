-- ===== src/Fault/Optimal/Furthest.antt =====
-- kern/trap/fault_handler.c, get_optimal_num_faults: the page that is chosen to go.
use fos_operational_system_f.Common.{
  ℕ, zero, suc, sym, none, Option-cases, length, ◌+◌, ◌≤◌, ◌<◌, ◌≡◌, refl, ap, ◌∙◌, ◌⊎◌, inl, inr,
  true, some, List, [], ◌∷◌, arith, contains, get_elem?,
}
use native.Mathlib.Decide.{dec_lt, ℕ_discrete}
use fos_operational_system_f.Fault.Optimal.{ws_steps, distance, furthest}

-- No page of `ws` is needed later than `d` references from now.
abbrev pub NoneLater : List ℕ → List ℕ → ℕ → Type 0
NoneLater rs ws d = (u : ℕ) → contains u ws ≡ true → distance u rs ≤ d

-- The first use of a page comes at its distance.
ws_steps-at : (u n : ℕ) (rs : List ℕ) → ws_steps u rs ≡ some n → get_elem? rs n ≡ some u
unfolding ws_steps
ws_steps-at u n [] h = absurd (ground (arith, h))
ws_steps-at u n (r ∷ rs) h = elim (ℕ_discrete u r) [
  | yes e ↦ rw (first_step e) (ap some (sym e))
  | no ne ↦ elim (Option-cases (ws_steps u rs)) [
    | inl z ↦ absurd (ground (arith, h, ne, z))
    | inr (m, z) ↦ let k : n ≡ suc m = ground (arith, h, ne, z) in rw k (ws_steps-at u m rs z)
  ]
]
  where
    first_step : u ≡ r → n ≡ 0
    first_step e = ground (arith, h, e)

ws_steps-le :
    (u j : ℕ) (rs : List ℕ) → get_elem? rs j ≡ some u → (n : ℕ) × (ws_steps u rs ≡ some n) × (n ≤ j)
unfolding ws_steps
ws_steps-le u j [] h = absurd (ground (arith, h))
ws_steps-le u zero (r ∷ rs) h = (0, ground (arith, h), omega arith)
ws_steps-le u (suc j) (r ∷ rs) h =
    let (n, e, le) = ws_steps-le u j rs h in
    elim (ℕ_discrete u r) [
      | yes q ↦ (0, ground (arith, q), omega arith)
      | no ne ↦ (suc n, ground (arith, ne, e), omega arith)
    ]

get_elem?-lt : (u j : ℕ) (rs : List ℕ) → get_elem? rs j ≡ some u → j < length rs
get_elem?-lt u j [] h = absurd (ground (arith, h))
get_elem?-lt u zero (r ∷ rs) h = omega arith
get_elem?-lt u (suc j) (r ∷ rs) h = omega (arith, get_elem?-lt u j rs h)

-- Every page of `ws` is used no later than `va`: if `va` is still used at all, so is the page, and
-- not after it.
abbrev pub UsedBefore : List ℕ → List ℕ → ℕ → Type 0
UsedBefore rs ws va =
    (u : ℕ)
    → contains u ws ≡ true
    → (j : ℕ) → get_elem? rs j ≡ some va
    → (i : ℕ) × (get_elem? rs i ≡ some u) × (i ≤ j)

distance_at : (u n : ℕ) (rs : List ℕ) → ws_steps u rs ≡ some n → distance u rs ≡ n
unfolding distance
distance_at u n rs z = rw (distance, z) refl

distance_never : (u : ℕ) (rs : List ℕ) → ws_steps u rs ≡ none → distance u rs ≡ 1000000000
unfolding distance
distance_never u rs z = rw (distance, z) refl

pub NoneLater-UsedBefore :
    (rs ws : List ℕ) (va : ℕ)
    → length rs ≤ 1000000000
    → NoneLater rs ws (distance va rs)
    → UsedBefore rs ws va
NoneLater-UsedBefore rs ws va short none_later u c j at =
    let (n, e, le) = ws_steps-le va j rs at in
    let far = none_later u c in
    let near = get_elem?-lt va j rs at in
    elim (Option-cases (ws_steps u rs)) [
      | inl z ↦
          absurd (omega (arith, distance_never u rs z, distance_at va n rs e, far, near, short, le))
      | inr (m, z) ↦ (
        m,
        ws_steps-at u m rs z,
        omega (arith, distance_at u m rs z, distance_at va n rs e, far, le),
      )
    ]

-- What the loop finds in `ws`, of which the first page is the `k`-th.
abbrev Found : List ℕ → List ℕ → ℕ → ℕ → ℕ → ℕ → Type 0
Found rs ws k steps index i =
    ((i ≡ index) × NoneLater rs ws steps)
    ⊎ ((j : ℕ) × (va : ℕ) × (i ≡ k + j)
        × (get_elem? ws j ≡ some va)
        × (steps ≤ distance va rs)
        × NoneLater rs ws (distance va rs))

furthest-later :
    (rs ws : List ℕ) (va k steps index : ℕ)
    → steps < distance va rs
    → furthest rs (va ∷ ws) k steps index ≡ furthest rs ws (suc k) (distance va rs) k
unfolding furthest
furthest-later rs ws va k steps index lt = ground arith

furthest-sooner :
    (rs ws : List ℕ) (va k steps index : ℕ)
    → distance va rs ≤ steps
    → furthest rs (va ∷ ws) k steps index ≡ furthest rs ws (suc k) steps index
unfolding furthest
furthest-sooner rs ws va k steps index le = ground arith

contains-cons :
    (u va : ℕ) (ws : List ℕ) → contains u (va ∷ ws) ≡ true → (va ≡ u) ⊎ (contains u ws ≡ true)
unfolding contains
contains-cons u va ws h = ground arith

NoneLater-cons :
    (rs ws : List ℕ) (va d : ℕ) → distance va rs ≤ d → NoneLater rs ws d → NoneLater rs (va ∷ ws) d
NoneLater-cons rs ws va d le h u c = elim (contains-cons u va ws c) [
  | inl e ↦ omega (arith, ap (λ x. distance x rs) e)
  | inr m ↦ h u m
]

furthest-Found :
    (rs ws : List ℕ) (k steps index : ℕ) → Found rs ws k steps index (furthest rs ws k steps index)
unfolding furthest contains
furthest-Found rs [] k steps index = inl (refl, λ u c. absurd (ground (arith, c)))
furthest-Found rs (va ∷ ws) k steps index = elim (dec_lt steps (distance va rs)) [
  | yes lt ↦
      let d = distance va rs in
      rw (furthest-later rs ws va k steps index lt) (elim (furthest-Found rs ws (suc k) d k) [
        | inl (e, h) ↦
            inr (0, va, omega arith, refl, omega arith, NoneLater-cons rs ws va d (omega arith) h)
        | inr (j, w, e, g, le, h) ↦
            inr
              (suc j, w, omega arith, g, omega arith, NoneLater-cons rs ws va (distance w rs) le h)
      ])
  | no n ↦
      rw (furthest-sooner rs ws va k steps index (omega arith))
        (elim (furthest-Found rs ws (suc k) steps index) [
          | inl (e, h) ↦ inl (e, NoneLater-cons rs ws va steps (omega arith) h)
          | inr (j, w, e, g, le, h) ↦ inr (
            suc j,
            w,
            omega arith,
            g,
            le,
            NoneLater-cons rs ws va (distance w rs) (omega arith) h,
          )
        ])
]

-- The index found is that of a page, and no page is needed later than it.
pub furthest_lem :
    (rs : List ℕ) (x : ℕ) (ws : List ℕ)
    → (va : ℕ) × (get_elem? (x ∷ ws) (furthest rs (x ∷ ws) 0 0 0) ≡ some va)
      × NoneLater rs (x ∷ ws) (distance va rs)
furthest_lem rs x ws = elim (furthest-Found rs (x ∷ ws) 0 0 0) [
  | inl (e, h) ↦ (x, ap (get_elem? (x ∷ ws)) e, λ u c. omega (arith, h u c))
  | inr (j, va, e, g, le, h) ↦
      let e' : furthest rs (x ∷ ws) 0 0 0 ≡ j = omega arith in
      (va, ap (get_elem? (x ∷ ws)) e' ∙ g, h)
]
