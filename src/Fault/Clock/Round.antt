-- ===== src/Fault/Clock/Round.antt =====
-- kern/trap/fault_handler.c: one round of the CLOCK search, and what its result says.
use fos_operational_system_f.Common.{
  ℕ, suc, ◌%◌, ◌≡◌, ◌≢◌, refl, ap, sym, subst, ◌∙◌, ◌⊎◌, inl, true, false, Option, some, List, [],
  ◌∷◌, ◌++◌, arith, update, contains, Distinct, contains-append, Distinct-middle,
}
use native.Mathlib.Decide.{ℕ_discrete}
use fos_operational_system_f.Common.Outcome.{ok}
use fos_operational_system_f.Mmu.{perm_used, has_bit, clear_bit, clear_used}
use fos_operational_system_f.Space.{Space, pt_get_page_permissions, pt_clear_bit}
use fos_operational_system_f.Space.Aging.Aged.{page_of, is_used, WorkingSet}
use fos_operational_system_f.Fault.Clock.{first, clock_next, clock_search}
use fos_operational_system_f.Fault.Clock.Circle.{Circle, clock_next-Circle, clock_next-alone}

-- The space after the used bit of `p` is cleared, with the pointer moved to `o`.
abbrev pub cleared : Space → ℕ → ℕ → Option ℕ → Space
cleared s p e o = record s {
  pte = update s.pte (page_of s p) (some (clear_bit perm_used e));
  page_last_ws_element = o;
}

pub search-unused :
    {S : Type 0} (fuel : ℕ) (s : Space) (p : ℕ)
    → s.page_last_ws_element ≡ some p
    → is_used s p ≡ false
    → clock_search {S = S} (suc fuel) s ≡ ok (p, s)
unfolding clock_search is_used
search-unused fuel s p e u = ground (arith, e, u)

pub search-used :
    {S : Type 0} (fuel : ℕ) (s : Space) (p e : ℕ)
    → s.page_last_ws_element ≡ some p
    → is_used s p ≡ true
    → s.pte (page_of s p) ≡ some e
    → clock_search {S = S} (suc fuel) s
      ≡ clock_search fuel (cleared s p e (clock_next s.page_ws_list p))
unfolding clock_search is_used pt_clear_bit
search-used fuel s p e l u q =
    rw (clock_search, l) (rw (clock_search, u) (rw (pt_clear_bit, q) refl))

pub cleared_self : (s : Space) (p e : ℕ) (o : Option ℕ) → is_used (cleared s p e o) p ≡ false
unfolding is_used pt_get_page_permissions
cleared_self s p e o = ground (arith, low_bits (clear_bit perm_used e), clear_used e)
  where
    low_bits : (e : ℕ) → has_bit perm_used (e % 4096) ≡ has_bit perm_used e
    low_bits e = ground arith

pub cleared_other :
    (s : Space) (p e : ℕ) (o : Option ℕ) (q : ℕ)
    → page_of s p ≢ page_of s q
    → is_used (cleared s p e o) q ≡ is_used s q
unfolding is_used pt_get_page_permissions
cleared_other s p e o q ne = ground arith

pub cleared-WorkingSet :
    (ws : List ℕ) (s : Space) (p e : ℕ) (o : Option ℕ)
    → WorkingSet ws s
    → WorkingSet ws (cleared s p e o)
cleared-WorkingSet ws s p e o v = record {
  once = v.once;
  table = λ q m. elim (ℕ_discrete (page_of s p) (page_of s q)) [
    | yes h ↦ (clear_bit perm_used e, ground (arith, h))
    | no n ↦ let (k, c) = v.table q m in (k, ground (arith, c))
  ];
  apart = v.apart;
}

pub Circle-apart :
    (ws : List ℕ) (p : ℕ) (r : List ℕ) → Distinct ws → Circle ws p r → contains p r ≡ false
Circle-apart ws p r d c =
    let (a, b, _) = Distinct-middle c.before p c.after (subst Distinct c.list d) in
    ap (contains p) c.round ∙ contains-append p c.after c.before ∙ ground (arith, a, b)

pub Circle-in :
    (ws : List ℕ) (p : ℕ) (r : List ℕ)
    → Circle ws p r
    → (u : ℕ) → contains u r ≡ true
    → contains u ws ≡ true
unfolding contains
Circle-in ws p r c u m =
    let h = sym (contains-append u c.after c.before) ∙ sym (ap (contains u) c.round) ∙ m in
    ap (contains u) c.list ∙ contains-append u c.before (p ∷ c.after) ∙ ground (arith, h)

pub Circle-self : (ws : List ℕ) (p : ℕ) (r : List ℕ) → Circle ws p r → contains p ws ≡ true
unfolding contains
Circle-self ws p r c =
    ap (contains p) c.list ∙ contains-append p c.before (p ∷ c.after) ∙ ground arith

-- `v` is the first of `l` that is not used.
pub record FirstUnused (s : Space) (l : List ℕ) (v : ℕ) : Type 0 where
  pub passed : List ℕ
  pub rest : List ℕ
  pub list : l ≡ passed ++ v ∷ rest
  pub used : (u : ℕ) → contains u passed ≡ true → is_used s u ≡ true
  pub unused : is_used s v ≡ false

abbrev pub AllUsed : Space → List ℕ → Type 0
AllUsed s l = (u : ℕ) → contains u l ≡ true → is_used s u ≡ true

-- What the search leaves at its victim `v`: the pointer there, and the list as it was.
pub record Stopped (s : Space) (v : ℕ) (t : Space) : Type 0 where
  pub pointer : t.page_last_ws_element ≡ some v
  pub unused : is_used t v ≡ false
  pub ws_list : t.page_ws_list ≡ s.page_ws_list
  pub wse : t.wse ≡ s.wse

pub first-append :
    (xs : List ℕ) (p : ℕ) (ys : List ℕ) → first ((xs ++ p ∷ []) ++ ys) ≡ first (xs ++ p ∷ [])
first-append [] p ys = refl
first-append (x ∷ xs) p ys = refl

pub AllUsed-cons :
    (s : Space) (p : ℕ) (l : List ℕ) → is_used s p ≡ true → AllUsed s l → AllUsed s (p ∷ l)
unfolding contains
AllUsed-cons s p l u h x m = elim (ℕ_discrete p x) [
  | yes e ↦ subst (λ k. is_used s k ≡ true) e u
  | no n ↦ h x (ground (arith, m, n))
]

pub FirstUnused-cons :
    (s : Space) (p : ℕ) (l : List ℕ) (v : ℕ)
    → is_used s p ≡ true
    → FirstUnused s l v
    → FirstUnused s (p ∷ l) v
FirstUnused-cons s p l v u f = record {
  passed = p ∷ f.passed;
  rest = f.rest;
  list = ap (λ k. p ∷ k) f.list;
  used = AllUsed-cons s p f.passed u f.used;
  unused = f.unused;
}

pub head_is_in : (d : ℕ) (ds : List ℕ) → contains d (d ∷ ds) ≡ true
unfolding contains
head_is_in d ds = ground arith

-- The search's result from the pointer at `p`, with `todo` ahead and `done` behind it.
abbrev pub Result : (S : Type 0) → ℕ → Space → ℕ → List ℕ → List ℕ → Type 0
Result S fuel s p todo done =
    (v : ℕ) × (t : Space) × (clock_search {S = S} fuel s ≡ ok (v, t))
    × Stopped s v t
    × (FirstUnused s (p ∷ todo) v ⊎ (AllUsed s (p ∷ todo) × (first (done ++ p ∷ []) ≡ some v)))

pub stop_here :
    (S : Type 0) (fuel : ℕ) (s : Space) (p : ℕ) (todo done : List ℕ)
    → s.page_last_ws_element ≡ some p
    → is_used s p ≡ false
    → Result S (suc fuel) s p todo done
unfolding contains
stop_here S fuel s p todo done e u = (
  p,
  s,
  search-unused fuel s p e u,
  record { pointer = e; unused = u; ws_list = refl; wse = refl },
  inl (record {
    passed = [];
    rest = todo;
    list = refl;
    used = λ x m. absurd (ground (arith, m));
    unused = u;
  }),
)

module _ (ws : List ℕ) (s : Space) (v : WorkingSet ws s) (p : ℕ)
    (at_list : s.page_ws_list ≡ ws) where
  -- The bits of the others are as before when that of `p` is cleared.
  pub same_bit :
      (e : ℕ) (o : Option ℕ) (r : List ℕ)
      → Circle ws p r
      → (u : ℕ) → contains u r ≡ true
      → is_used (cleared s p e o) u ≡ is_used s u
  same_bit e o r c u m = cleared_other s p e o u (
      v.apart p u (Circle-self ws p r c) (Circle-in ws p r c u m)
        (λ h. absurd (ground (arith, ap (λ k. contains k r) h, m, Circle-apart ws p r v.once c))))

  -- The search comes round to where it began.
  pub wrapped :
      {S : Type 0} (fuel e : ℕ) (done : List ℕ)
      → Circle ws p done
      → ((u : ℕ) → contains u done ≡ true → is_used s u ≡ false)
      → (d : ℕ) × (t : Space) × (clock_search {S = S} (suc fuel) (cleared s p e (clock_next ws p))
          ≡ ok (d, t))
        × Stopped s d t
        × (first (done ++ p ∷ []) ≡ some d)
  wrapped fuel e [] c h =
      let o = clock_next-alone ws p c in
      (
        p,
        cleared s p e (clock_next ws p),
        search-unused fuel (cleared s p e (clock_next ws p)) p o
            (cleared_self s p e (clock_next ws p)),
        record {
          pointer = o;
          unused = cleared_self s p e (clock_next ws p);
          ws_list = refl;
          wse = refl;
        },
        refl,
      )
  wrapped fuel e (d ∷ ds) c h =
      let o = (clock_next-Circle ws p d ds v.once c).0 in
      let b = same_bit e (clock_next ws p) (d ∷ ds) c d (head_is_in d ds) ∙ h d (head_is_in d ds) in
      (
        d,
        cleared s p e (clock_next ws p),
        search-unused fuel (cleared s p e (clock_next ws p)) d o b,
        record { pointer = o; unused = b; ws_list = refl; wse = refl },
        refl,
      )
