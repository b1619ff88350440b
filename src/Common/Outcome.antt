-- ===== src/Common/Outcome.antt =====
-- What a piece of kernel code does: it returns, hands the CPU over for good, or stops the machine.
use mathlib.Core.Bool.{Bool, true, false}
use mathlib.Core.Path.{◌≡◌, sym, ap, ◌∙◌}
use mathlib.Core.Logic.{◌⊎◌, inl, inr}

-- Where control goes when it does not come back to the caller.
pub data Exit : Type 0 where
  to_scheduler to_prompt : Exit

-- `panic` is a call of `panic` or a failed `assert`. `fault` is what the C code leaves undefined:
-- a null pointer that is followed, an index out of range, a list that is corrupted.
-- `leaves` keeps the state in which the caller was left.
pub data Outcome (S A : Type 0) : Type 0 where
  ok : A → Outcome S A
  leaves : Exit → S → Outcome S A
  panic : Outcome S A
  fault : Outcome S A

infixl 5 ◌>>=◌
abbrev pub ◌>>=◌ : {S A B : Type 0} → Outcome S A → (A → Outcome S B) → Outcome S B
ok a >>= f = f a
leaves e s >>= f = leaves e s
panic >>= f = panic
fault >>= f = fault

-- `assert(b)`, and then the rest.
abbrev pub assert_then : {S A : Type 0} → Bool → Outcome S A → Outcome S A
assert_then true m = m
assert_then false m = panic

abbrev pub result_or : {S : Type 0} → S → Outcome S S → S
result_or s (ok t) = t
result_or s (leaves e t) = t
result_or s _ = s

-- An outcome has one state.
pub same_result :
    {S : Type 0} (s m n : S) (e : Exit) (o : Outcome S S)
    → (o ≡ ok m) ⊎ (o ≡ leaves e m)
    → (o ≡ ok n) ⊎ (o ≡ leaves e n)
    → m ≡ n
same_result s m n e o (inl a) (inl b) = sym (ap (result_or s) a) ∙ ap (result_or s) b
same_result s m n e o (inl a) (inr b) = sym (ap (result_or s) a) ∙ ap (result_or s) b
same_result s m n e o (inr a) (inl b) = sym (ap (result_or s) a) ∙ ap (result_or s) b
same_result s m n e o (inr a) (inr b) = sym (ap (result_or s) a) ∙ ap (result_or s) b
