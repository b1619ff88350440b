-- ===== src/Fault/Clock/Search.antt =====
-- kern/trap/fault_handler.c: the search of CLOCK replacement ends, and gives each page that was
-- used a second chance.
use fos_operational_system_f.Common.{
  ℕ, zero, suc, ◌+◌, ◌≤◌, ◌<◌, ◌≡◌, refl, ap, sym, subst, ◌∙◌, ◌⊎◌, inl, inr, true, false, Option,
  some, List, [], ◌∷◌, ◌++◌, arith, contains, length, append_assoc, append-nil, contains-append,
  Bool-cases, length-append,
}
use native.Mathlib.Decide.{ℕ_discrete}
use fos_operational_system_f.Common.Outcome.{ok}
use fos_operational_system_f.Space.{Space}
use fos_operational_system_f.Space.Aging.Aged.{is_used, WorkingSet}
use fos_operational_system_f.Fault.Clock.{clock_next, clock_search}
use fos_operational_system_f.Fault.Clock.Circle.{Circle, clock_next-Circle}
use fos_operational_system_f.Fault.Clock.Round.{
  cleared, search-used, cleared_self, cleared-WorkingSet, Circle-self, FirstUnused, AllUsed,
  Stopped, first-append, AllUsed-cons, FirstUnused-cons, head_is_in, Result, stop_here, same_bit,
  wrapped,
}

Stopped-cleared :
    (s : Space) (p e : ℕ) (o : Option ℕ) (v : ℕ) (t : Space)
    → Stopped (cleared s p e o) v t
    → Stopped s v t
Stopped-cleared s p e o v t w = record {
  pointer = w.pointer;
  unused = w.unused;
  ws_list = w.ws_list;
  wse = w.wse;
}

FirstUnused-same :
    (s t : Space) (l : List ℕ) (v : ℕ)
    → ((u : ℕ) → contains u l ≡ true → is_used t u ≡ is_used s u)
    → FirstUnused t l v
    → FirstUnused s l v
FirstUnused-same s t l v h f = record {
  passed = f.passed;
  rest = f.rest;
  list = f.list;
  used = λ u m.
      sym
        (h u (ap (contains u) f.list ∙ contains-append u f.passed (v ∷ f.rest) ∙ ground (arith, m)))
      ∙ f.used u m;
  unused =
      sym (
        h v (
          ap (contains v) f.list
          ∙ contains-append v f.passed (v ∷ f.rest)
          ∙ ground (arith, head_is_in v f.rest)))
      ∙ f.unused;
}

nothing_in : {A : Type 0} (s : Space) (u : ℕ) → contains u [] ≡ true → A
unfolding contains
nothing_in s u m = absurd (ground (arith, m))

in_snoc : (z p : ℕ) (l : List ℕ) → contains z (l ++ p ∷ []) ≡ true → (contains z l ≡ true) ⊎ (p ≡ z)
unfolding contains
in_snoc z p l m = ground (arith, m, contains-append z l (p ∷ []))

in_left : (z : ℕ) (a b : List ℕ) → contains z a ≡ true → contains z (a ++ b) ≡ true
in_left z a b m = contains-append z a b ∙ ground (arith, m)

in_right : (z : ℕ) (a b : List ℕ) → contains z b ≡ true → contains z (a ++ b) ≡ true
in_right z a b m = contains-append z a b ∙ ground (arith, m)

search_from :
    (S : Type 0) (fuel : ℕ) (ws : List ℕ) (s : Space) (p : ℕ) (todo done : List ℕ)
    → length todo + 2 ≤ fuel
    → s.page_ws_list ≡ ws
    → WorkingSet ws s
    → s.page_last_ws_element ≡ some p
    → Circle ws p (todo ++ done)
    → ((u : ℕ) → contains u done ≡ true → is_used s u ≡ false)
    → Result S fuel s p todo done
search_from S zero ws s p todo done f l v ptr c h = absurd (omega arith)
search_from S (suc zero) ws s p todo done f l v ptr c h = absurd (omega arith)
search_from S (suc (suc fuel)) ws s p [] done f l v ptr c h = elim (Bool-cases (is_used s p)) [
  | inr u ↦ stop_here S (suc fuel) s p [] done ptr u
  | inl u ↦
      let (e, q) = v.table p (Circle-self ws p done c) in
      let o = clock_next ws p in
      let (d, t, r, w, first_one) = wrapped ws s v p l {S = S} fuel e done c h in
      (
        d,
        t,
        search-used (suc fuel) s p e ptr u q
            ∙ ap (λ k. clock_search {S = S} (suc fuel) (cleared s p e (clock_next k p))) l
            ∙ r,
        w,
        inr (AllUsed-cons s p [] u (λ x m. nothing_in s x m), first_one),
      )
]
search_from S (suc (suc fuel)) ws s p (x ∷ xs) done f l v ptr c h =
    elim (Bool-cases (is_used s p)) [
      | inr u ↦ stop_here S (suc fuel) s p (x ∷ xs) done ptr u
      | inl u ↦
          let (e, q) = v.table p (Circle-self ws p (x ∷ xs ++ done) c) in
          let o = clock_next ws p in
          let (n, c') = clock_next-Circle ws p x (xs ++ done) v.once c in
          let same = same_bit ws s v p l e o (x ∷ xs ++ done) c in
          let (y, t, r, w, k) =
            search_from S (suc fuel) ws (cleared s p e o) x xs (done ++ p ∷ []) (omega arith) l
              (cleared-WorkingSet ws s p e o v) n
              (subst (Circle ws x) (append_assoc xs done (p ∷ [])) c')
              (λ z m. elim (in_snoc z p done m) [
                | inl a ↦ same z (in_right z (x ∷ xs) done a) ∙ h z a
                | inr a ↦ subst (λ j. is_used (cleared s p e o) j ≡ false) a (cleared_self s p e o)
              ]) in
          let back : (z : ℕ)
              → contains z (x ∷ xs) ≡ true
              → is_used (cleared s p e o) z ≡ is_used s z =
            λ z m. same z (in_left z (x ∷ xs) done m) in
          (
            y,
            t,
            search-used (suc fuel) s p e ptr u q
                ∙ ap (λ j. clock_search {S = S} (suc fuel) (cleared s p e (clock_next j p))) l
                ∙ r,
            Stopped-cleared s p e o y t w,
            elim k [
              | inl a ↦ inl (
                  FirstUnused-cons s p (x ∷ xs) y u
                    (FirstUnused-same s (cleared s p e o) (x ∷ xs) y back a))
              | inr (a, b) ↦ inr (
                AllUsed-cons s p (x ∷ xs) u (λ z m. sym (back z m) ∙ a z m),
                sym (first-append done p (x ∷ [])) ∙ b,
              )
            ],
          )
    ]

-- An element of a list splits it, which gives the round from there.
Circle-of :
    (ws : List ℕ) (p : ℕ)
    → contains p ws ≡ true
    → (r : List ℕ) × Circle ws p r × (length ws ≡ suc (length r))
unfolding contains
Circle-of ws p m =
    let (a, b, e) = split ws m in
    (
      b ++ a,
      record { before = a; after = b; list = e; round = refl },
      ap length e ∙ omega (arith, length-append a (p ∷ b), length-append b a),
    )
  where
    split : (ws : List ℕ) → contains p ws ≡ true → (a : List ℕ) × (b : List ℕ) × (ws ≡ a ++ p ∷ b)
    split [] m = absurd (ground (arith, m))
    split (x ∷ xs) m = elim (ℕ_discrete x p) [
      | yes e ↦ ([], xs, ap (λ k. k ∷ xs) e)
      | no n ↦ let (a, b, e) = split xs (ground (arith, m, n)) in (x ∷ a, b, ap (λ k. x ∷ k) e)
    ]

-- In a working set whose elements are on the list once each, whose pages have page tables and
-- where no two are of the same page, with the pointer at an element of the list, and with more
-- rounds of the loop allowed than the list is long, the CLOCK search ends at an element. With `r`
-- the rest of the list in the order in which the pointer goes round: the victim is the first of
-- the pointer's element and `r` whose page is not marked used, or, if all are, the pointer's own
-- element. The pointer is left at the victim, whose page is not marked used then, and the list
-- and its elements are as they were.
pub clock_search_lem :
    (S : Type 0) (fuel : ℕ) (s : Space) (p : ℕ)
    → WorkingSet s.page_ws_list s
    → s.page_last_ws_element ≡ some p
    → contains p s.page_ws_list ≡ true
    → length s.page_ws_list < fuel
    → (r : List ℕ) × Circle s.page_ws_list p r
      × ((v : ℕ) × (t : Space) × (clock_search {S = S} fuel s ≡ ok (v, t))
          × Stopped s v t
          × (FirstUnused s (p ∷ r) v ⊎ (AllUsed s (p ∷ r) × (p ≡ v))))
clock_search_lem S fuel s p v ptr m lt =
    let (r, c, n) = Circle-of s.page_ws_list p m in
    let (x, t, e, w, k) =
      search_from S fuel s.page_ws_list s p r [] (omega arith) refl v ptr
        (subst (Circle s.page_ws_list p) (sym (append-nil r)) c) (λ u h. nothing_in s u h) in
    (r, c, (x, t, e, w, elim k [ inl a ↦ inl a | inr (a, b) ↦ inr (a, ground (arith, b)) ]))
