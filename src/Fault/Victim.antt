-- ===== src/Fault/Victim.antt =====
-- kern/trap/fault_handler.c, page_fault_handler: the page that LRU replacement takes out, and
-- is_page_in_ws.
use fos_operational_system_f.Common.{
  ℕ, ◌-◌, ◌^◌, ◌≤◌, ◌<◌, ◌≡◌, refl, ap, ◌⊎◌, inl, inr, Bool, true, false, Option, none, some, List,
  [], ◌∷◌, arith, ◌==◌, ltb, if◌then◌else◌, contains,
}
use native.Mathlib.Decide.{dec_lt}
use fos_operational_system_f.Space.{Space}

abbrev pub uint_max : ℕ
uint_max = 2 ^ 32 - 1

unfoldable pub is_page_in_ws : Space → List ℕ → ℕ → Bool
is_page_in_ws s [] page_va = false
is_page_in_ws s (p ∷ ps) page_va =
    if (s.wse p).virtual_address == page_va then true else is_page_in_ws s ps page_va

-- The loop over the working set: the least time stamp so far, and its element.
unfoldable pub lru_loop : Space → List ℕ → ℕ → Option ℕ → Option ℕ
lru_loop s [] min victim = victim
lru_loop s (p ∷ ps) min victim =
    if ltb (s.wse p).time_stamp min
    then lru_loop s ps (s.wse p).time_stamp (some p)
    else lru_loop s ps min victim

-- `none` is the null pointer, which the handler goes on to follow.
unfoldable pub lru_victim : Space → Option ℕ
lru_victim s = lru_loop s s.page_ws_list uint_max none

abbrev stamp : Space → ℕ → ℕ
stamp s p = (s.wse p).time_stamp

-- What the loop has at its end: what it began with, or an older element of the list.
abbrev Chosen : Space → List ℕ → ℕ → Option ℕ → Option ℕ → Type 0
Chosen s ps min victim o =
    ((o ≡ victim) × ((u : ℕ) → contains u ps ≡ true → min ≤ stamp s u))
    ⊎ ((v : ℕ) × (o ≡ some v)
        × (contains v ps ≡ true)
        × (stamp s v < min)
        × ((u : ℕ) → contains u ps ≡ true → stamp s v ≤ stamp s u))

contains-cons :
    (u p : ℕ) (ps : List ℕ) → contains u (p ∷ ps) ≡ true → (p ≡ u) ⊎ (contains u ps ≡ true)
unfolding contains
contains-cons u p ps h = ground arith

least-cons :
    (s : Space) (p : ℕ) (ps : List ℕ) (m : ℕ)
    → m ≤ stamp s p
    → ((u : ℕ) → contains u ps ≡ true → m ≤ stamp s u)
    → (u : ℕ) → contains u (p ∷ ps) ≡ true
    → m ≤ stamp s u
least-cons s p ps m le h u c = elim (contains-cons u p ps c) [
  | inl e ↦ omega (arith, ap (stamp s) e)
  | inr k ↦ h u k
]

lru_loop-Chosen :
    (s : Space) (ps : List ℕ) (min : ℕ) (victim : Option ℕ)
    → Chosen s ps min victim (lru_loop s ps min victim)
unfolding lru_loop contains
lru_loop-Chosen s [] min victim = inl (refl, λ u c. absurd (ground (arith, c)))
lru_loop-Chosen s (p ∷ ps) min victim = elim (dec_lt (stamp s p) min) [
  | yes lt ↦ elim (lru_loop-Chosen s ps (stamp s p) (some p)) [
    | inl (e, h) ↦
        inr (p, older lt e, ground arith, lt, least-cons s p ps (stamp s p) (omega arith) h)
    | inr (v, e, c, k, h) ↦ inr (
      v,
      older lt e,
      ground (arith, c),
      omega arith,
      least-cons s p ps (stamp s v) (omega arith) h,
    )
  ]
  | no n ↦ elim (lru_loop-Chosen s ps min victim) [
    | inl (e, h) ↦ inl (newer n e, least-cons s p ps min (omega arith) h)
    | inr (v, e, c, k, h) ↦
        inr (v, newer n e, ground (arith, c), k, least-cons s p ps (stamp s v) (omega arith) h)
  ]
]
  where
    older :
        {o : Option ℕ}
        → stamp s p < min
        → lru_loop s ps (stamp s p) (some p) ≡ o
        → lru_loop s (p ∷ ps) min victim ≡ o
    older lt e = ground (arith, e)

    newer :
        {o : Option ℕ}
        → ¬ (stamp s p < min)
        → lru_loop s ps min victim ≡ o
        → lru_loop s (p ∷ ps) min victim ≡ o
    newer n e = ground (arith, e)

-- With time stamps of 32 bits, LRU replacement finds an element of the working set whose stamp is
-- the least of all, or it finds none, and then every stamp of the working set is UINT_MAX.
lru_victim_lem :
    (s : Space)
    → ((p : ℕ) → contains p s.page_ws_list ≡ true → (s.wse p).time_stamp ≤ uint_max)
    → ((v : ℕ) × (lru_victim s ≡ some v)
        × (contains v s.page_ws_list ≡ true)
        × ((u : ℕ)
            → contains u s.page_ws_list ≡ true
            → (s.wse v).time_stamp ≤ (s.wse u).time_stamp))
      ⊎ ((lru_victim s ≡ none)
          × ((u : ℕ) → contains u s.page_ws_list ≡ true → (s.wse u).time_stamp ≡ uint_max))
unfolding lru_victim
lru_victim_lem s w = elim (lru_loop-Chosen s s.page_ws_list uint_max none) [
  | inl (e, h) ↦ inr (e, λ u c. omega (arith, h u c, w u c))
  | inr (v, e, c, k, h) ↦ inl (v, e, c, h)
]

-- A victim is an element of the working set.
pub lru_victim_in :
    (s : Space)
    → (lru_victim s ≡ none)
      ⊎ ((v : ℕ) × (lru_victim s ≡ some v) × (contains v s.page_ws_list ≡ true))
unfolding lru_victim
lru_victim_in s = elim (lru_loop-Chosen s s.page_ws_list uint_max none) [
  | inl (e, h) ↦ inl e
  | inr (v, e, c, k, h) ↦ inr (v, e, c)
]
