-- ===== src/Fault/Clock/Circle.antt =====
-- The order in which the clock pointer goes round the working set list
-- (kern/trap/fault_handler.c).
use fos_operational_system_f.Common.{
  ℕ, ◌≡◌, ◌≢◌, refl, ap, sym, subst, ◌∙◌, true, false, some, List, [], ◌∷◌, ◌++◌, arith, get_last?,
  contains, Distinct, get_last?-append, append_assoc, append-nil, Distinct-middle,
}
use fos_operational_system_f.Fault.Clock.{first, le_next, clock_next}

-- Behind `p` come `r`, round the end of the list, and then `p` again.
pub record Circle (ws : List ℕ) (p : ℕ) (r : List ℕ) : Type 0 where
  pub before : List ℕ
  pub after : List ℕ
  pub list : ws ≡ before ++ p ∷ after
  pub round : r ≡ after ++ before

le_next-middle :
    (xs : List ℕ) (p : ℕ) (ys : List ℕ)
    → contains p xs ≡ false
    → le_next (xs ++ p ∷ ys) p ≡ first ys
unfolding le_next contains
le_next-middle [] p ys c = ground arith
le_next-middle (x ∷ xs) p ys c = ground (arith, c, le_next-middle xs p ys (ground (arith, c)))

get_last?-later :
    (xs : List ℕ) (z : ℕ) (zs : List ℕ) → get_last? (xs ++ z ∷ zs) ≡ get_last? (z ∷ zs)
unfolding get_last?
get_last?-later [] z zs = refl
get_last?-later (x ∷ []) z zs = refl
get_last?-later (x ∷ y ∷ xs) z zs = get_last?-later (y ∷ xs) z zs

get_last?-in :
    (y : ℕ) (ys : List ℕ) → (q : ℕ) × (get_last? (y ∷ ys) ≡ some q) × (contains q (y ∷ ys) ≡ true)
unfolding get_last? contains
get_last?-in y [] = (y, refl, ground arith)
get_last?-in y (z ∷ ys) = let (q, e, c) = get_last?-in z ys in (q, e, ground (arith, c))

clock_next-inside :
    (xs : List ℕ) (p y : ℕ) (ys : List ℕ)
    → Distinct (xs ++ p ∷ y ∷ ys)
    → clock_next (xs ++ p ∷ y ∷ ys) p ≡ some y
unfolding clock_next
clock_next-inside xs p y ys d =
    let (a, b, _) = Distinct-middle xs p (y ∷ ys) d in
    let (q, e, c) = get_last?-in y ys in
    let e' : get_last? (xs ++ p ∷ y ∷ ys) ≡ some q = get_last?-later xs p (y ∷ ys) ∙ e in
    let ne : q ≢ p = λ h. absurd (ground (arith, ap (λ k. contains k (y ∷ ys)) h, b, c)) in
    ground (arith, e', ne, le_next-middle xs p (y ∷ ys) a)

clock_next-last : (xs : List ℕ) (p : ℕ) → clock_next (xs ++ p ∷ []) p ≡ first (xs ++ p ∷ [])
unfolding clock_next
clock_next-last xs p = ground (arith, get_last?-append xs p)

step_middle :
    (before : List ℕ) (p : ℕ) (after : List ℕ) (q : ℕ) (r : List ℕ)
    → Distinct (before ++ p ∷ after)
    → q ∷ r ≡ after ++ before
    → (clock_next (before ++ p ∷ after) p ≡ some q) × Circle (before ++ p ∷ after) q (r ++ p ∷ [])
step_middle [] p [] q r d e = absurd (ground (arith, e))
step_middle (x ∷ xs) p [] q r d e =
    let h : q ≡ x = ground (arith, e) in
    let t : r ≡ xs = ground (arith, e) in
    (
      clock_next-last (x ∷ xs) p ∙ ap some (sym h),
      record {
        before = [];
        after = xs ++ p ∷ [];
        list = ap (λ k. k ∷ xs ++ p ∷ []) (sym h);
        round = ap (λ k. k ++ p ∷ []) t ∙ sym (append-nil (xs ++ p ∷ []));
      },
    )
step_middle before p (y ∷ ys) q r d e =
    let h : q ≡ y = ground (arith, e) in
    let t : r ≡ ys ++ before = ground (arith, e) in
    (
      clock_next-inside before p y ys d ∙ ap some (sym h),
      record {
        before = before ++ p ∷ [];
        after = ys;
        list =
            sym (append_assoc before (p ∷ []) (y ∷ ys))
            ∙ ap (λ k. (before ++ p ∷ []) ++ k ∷ ys) (sym h);
        round = ap (λ k. k ++ p ∷ []) t ∙ append_assoc ys before (p ∷ []);
      },
    )

-- The pointer goes on to the first element of its round, which it leaves for the end of the next.
pub clock_next-Circle :
    (ws : List ℕ) (p q : ℕ) (r : List ℕ)
    → Distinct ws
    → Circle ws p (q ∷ r)
    → (clock_next ws p ≡ some q) × Circle ws q (r ++ p ∷ [])
clock_next-Circle ws p q r d c =
    subst (λ l. (clock_next l p ≡ some q) × Circle l q (r ++ p ∷ [])) (sym c.list)
      (step_middle c.before p c.after q r (subst Distinct c.list d) c.round)

alone :
    (before : List ℕ) (p : ℕ) (after : List ℕ)
    → [] ≡ after ++ before
    → clock_next (before ++ p ∷ after) p ≡ some p
alone [] p [] e = clock_next-last [] p
alone (x ∷ xs) p [] e = absurd (ground (arith, e))
alone before p (y ∷ ys) e = absurd (ground (arith, e))

pub clock_next-alone : (ws : List ℕ) (p : ℕ) → Circle ws p [] → clock_next ws p ≡ some p
clock_next-alone ws p c = ap (λ l. clock_next l p) c.list ∙ alone c.before p c.after c.round
