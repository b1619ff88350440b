-- ===== src/Common/Ends.antt =====
-- What holds of an outcome, and the rules by which it is shown along a chain of calls.
use fos_operational_system_f.Common.Outcome.{
  Outcome, ok, leaves, panic, fault, Exit, ◌>>=◌, assert_then,
}
use mathlib.Core.Bool.{Bool, true, false}
use mathlib.Core.Path.{◌≡◌, refl, sym, subst}
use fos_operational_system_f.Common.Tests.{if◌then◌else◌}

abbrev EndsAt : {S A : Type 0} → (S → Type 0) → (A → Type 0) → Outcome S A → Type 0
EndsAt P Q (ok a) = Q a
EndsAt P Q (leaves e s) = P s
EndsAt P Q panic = Unit {0}
EndsAt P Q fault = Unit {0}

-- `P` holds of the state in which the code leaves its caller, and `Q` of what it returns.
pub record Ends {S A : Type 0} (P : S → Type 0) (Q : A → Type 0) (o : Outcome S A) : Type 0 where
  pub at : EndsAt P Q o

-- The code returns, and `Q` holds of what it returns.
abbrev pub Returns : {S A : Type 0} → (A → Type 0) → Outcome S A → Type 0
Returns {A = A} Q o = (a : A) × (o ≡ ok a) × Q a

module _ {S A : Type 0} {P : S → Type 0} {Q : A → Type 0} where
  pub Ends-ok : (a : A) → Q a → Ends P Q (ok a)
  Ends-ok a h = record { at = h }

  pub Ends-leaves : (e : Exit) (s : S) → P s → Ends P Q (leaves e s)
  Ends-leaves e s h = record { at = h }

  pub Ends-panic : Ends P Q panic
  Ends-panic = record { at = tt }

  pub Ends-fault : Ends P Q fault
  Ends-fault = record { at = tt }

  pub Ends-if :
      (b : Bool) (x y : Outcome S A)
      → (b ≡ true → Ends P Q x)
      → (b ≡ false → Ends P Q y)
      → Ends P Q (if b then x else y)
  Ends-if true x y h k = h refl
  Ends-if false x y h k = k refl

module _ {S A B : Type 0} {P : S → Type 0} (Q : A → Type 0) {R : B → Type 0} where
  pub Ends-bind :
      (o : Outcome S A) (f : A → Outcome S B)
      → Ends P Q o
      → ((a : A) → Q a → Ends P R (f a))
      → Ends P R (o >>= f)
  Ends-bind (ok a) f h k = k a h.at
  Ends-bind (leaves e s) f h k = record { at = h.at }
  Ends-bind panic f h k = Ends-panic
  Ends-bind fault f h k = Ends-fault

module _ {S A B : Type 0} where
  pub Returns-bind :
      (Q : A → Type 0) (R : B → Type 0) (o : Outcome S A) (f : A → Outcome S B)
      → Returns Q o
      → ((a : A) → Q a → Returns R (f a))
      → Returns R (o >>= f)
  Returns-bind Q R o f (a, e, q) k = subst (λ o. Returns R (o >>= f)) {x = ok a} (sym e) (k a q)

-- What holds of an outcome holds of what it returns.
pub Returns-Ends :
    {S A : Type 0} {P : S → Type 0} {Q R : A → Type 0} (o : Outcome S A)
    → Returns R o
    → Ends P Q o
    → Returns (λ a. R a × Q a) o
Returns-Ends {P = P} {Q = Q} o (a, e, r) h = (a, e, (r, (subst (λ o. Ends P Q o) {x = o} e h).at))

pub Ends-assert :
    {S A : Type 0} {P : S → Type 0} {Q : A → Type 0} (b : Bool) (x : Outcome S A)
    → Ends P Q x
    → Ends P Q (assert_then b x)
Ends-assert true x h = h
Ends-assert false x h = Ends-panic

pub Ends-weaken :
    {S A : Type 0} {P P' : S → Type 0} {Q Q' : A → Type 0} (o : Outcome S A)
    → ((s : S) → P s → P' s)
    → ((a : A) → Q a → Q' a)
    → Ends P Q o
    → Ends P' Q' o
Ends-weaken (ok a) i j h = Ends-ok a (j a h.at)
Ends-weaken (leaves e s) i j h = Ends-leaves e s (i s h.at)
Ends-weaken panic i j h = Ends-panic
Ends-weaken fault i j h = Ends-fault

-- Two continuations that agree on what the code returns.
pub Ends-cong :
    {S A B : Type 0} {P : S → Type 0} (Q : A → Type 0) (o : Outcome S A) (f g : A → Outcome S B)
    → Ends P Q o
    → ((a : A) → Q a → f a ≡ g a)
    → (o >>= f) ≡ (o >>= g)
Ends-cong Q (ok a) f g h k = k a h.at
Ends-cong Q (leaves e s) f g h k = refl
Ends-cong Q panic f g h k = refl
Ends-cong Q fault f g h k = refl
