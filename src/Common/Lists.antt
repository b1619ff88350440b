-- ===== src/Common/Lists.antt =====
-- Lists of native numbers that stand for the kernel's linked lists of pointers.
use Prim.Native.Nat.{ℕ, zero, suc, ◌+◌, ◌≤◌, ◌<◌}
use mathlib.Core.Path.{◌≡◌, refl}
use mathlib.Core.Bool.{Bool, true, false, ◌||◌}
use mathlib.Core.List.{List, [], ◌∷◌, ◌++◌}
use mathlib.Core.Option.{Option, none, some}
use native.Mathlib.Omega.{arith}
use fos_operational_system_f.Common.Tests.{◌==◌, if◌then◌else◌}

module _ {ℓ} {A : Type ℓ} where
  abbrev pub length : List A → ℕ
  length [] = 0
  length (x ∷ xs) = suc (length xs)

  abbrev pub get_elem? : List A → ℕ → Option A
  get_elem? [] i = none
  get_elem? (x ∷ xs) zero = some x
  get_elem? (x ∷ xs) (suc i) = get_elem? xs i

  pub length-append : (xs ys : List A) → length (xs ++ ys) ≡ length xs + length ys
  length-append [] ys = omega arith
  length-append (x ∷ xs) ys = omega (arith, length-append xs ys)

-- Is the pointer on the list?
unfoldable pub contains : ℕ → List ℕ → Bool
contains a [] = false
contains a (x ∷ xs) = (x == a) || contains a xs

-- The list without the first occurrence of the pointer.
unfoldable pub erase : ℕ → List ℕ → List ℕ
erase a [] = []
erase a (x ∷ xs) = if x == a then xs else x ∷ erase a xs

-- No pointer is on the list twice.
abbrev pub Distinct : List ℕ → Type 0
Distinct [] = Unit {0}
Distinct (x ∷ xs) = (contains x xs ≡ false) × Distinct xs

-- How often the pointer is on the list.
unfoldable pub count : ℕ → List ℕ → ℕ
count a [] = 0
count a (x ∷ xs) = if x == a then suc (count a xs) else count a xs

pub contains-append :
    (a : ℕ) (xs ys : List ℕ) → contains a (xs ++ ys) ≡ (contains a xs || contains a ys)
unfolding contains
contains-append a [] ys = refl
contains-append a (x ∷ xs) ys = ground (arith, contains-append a xs ys)

pub count-append : (a : ℕ) (xs ys : List ℕ) → count a (xs ++ ys) ≡ count a xs + count a ys
unfolding count
count-append a [] ys = omega arith
count-append a (x ∷ xs) ys = ground (arith, count-append a xs ys)

pub contains-count : (a : ℕ) (xs : List ℕ) → contains a xs ≡ true → 0 < count a xs
unfolding contains count
contains-count a [] h = ground arith
contains-count a (x ∷ xs) h = ground (arith, contains-count a xs)

pub not_contains-count : (a : ℕ) (xs : List ℕ) → contains a xs ≡ false → count a xs ≡ 0
unfolding contains count
not_contains-count a [] h = refl
not_contains-count a (x ∷ xs) h = ground (arith, not_contains-count a xs)

pub Distinct-count : (a : ℕ) (xs : List ℕ) → Distinct xs → count a xs ≤ 1
unfolding count
Distinct-count a [] h = omega arith
Distinct-count a (x ∷ xs) h = ground (arith, Distinct-count a xs h.1, not_contains-count x xs)

pub erase_none : (a : ℕ) (xs : List ℕ) → contains a xs ≡ false → erase a xs ≡ xs
unfolding contains erase
erase_none a [] h = refl
erase_none a (x ∷ xs) h = ground (arith, erase_none a xs)

pub contains-erase :
    (a b : ℕ) (xs : List ℕ)
    → Distinct xs
    → contains a (erase b xs) ≡ (if b == a then false else contains a xs)
unfolding contains erase
contains-erase a b [] d = ground arith
contains-erase a b (x ∷ xs) d = ground (arith, contains-erase a b xs d.1)

pub erase-Distinct : (b : ℕ) (xs : List ℕ) → Distinct xs → Distinct (erase b xs)
unfolding erase
erase-Distinct b [] d = tt
erase-Distinct b (x ∷ xs) d = ground (arith, erase-Distinct b xs d.1, contains-erase x b xs d.1)

pub count-erase :
    (a b : ℕ) (xs : List ℕ)
    → contains b xs ≡ true
    → count a (erase b xs) + (if b == a then 1 else 0) ≡ count a xs
unfolding contains erase count
count-erase a b [] h = ground arith
count-erase a b (x ∷ xs) h = ground (arith, count-erase a b xs)

pub erase-append_first :
    (a : ℕ) (xs ys : List ℕ) → contains a xs ≡ false → erase a (xs ++ a ∷ ys) ≡ xs ++ ys
unfolding contains erase
erase-append_first a [] ys h = ground arith
erase-append_first a (x ∷ xs) ys h = ground (arith, erase-append_first a xs ys)

-- The last pointer (LIST_LAST).
unfoldable pub get_last? : List ℕ → Option ℕ
get_last? [] = none
get_last? (x ∷ []) = some x
get_last? (x ∷ y ∷ xs) = get_last? (y ∷ xs)

pub get_last?-append : (xs : List ℕ) (a : ℕ) → get_last? (xs ++ a ∷ []) ≡ some a
unfolding get_last?
get_last?-append [] a = refl
get_last?-append (x ∷ []) a = refl
get_last?-append (x ∷ y ∷ xs) a = get_last?-append (y ∷ xs) a

pub Distinct-middle :
    (xs : List ℕ) (a : ℕ) (ys : List ℕ)
    → Distinct (xs ++ a ∷ ys)
    → (contains a xs ≡ false) × (contains a ys ≡ false) × Distinct (xs ++ ys)
unfolding contains
Distinct-middle [] a ys d = (refl, d.0, d.1)
Distinct-middle (x ∷ xs) a ys d =
    let (p, q, r) = Distinct-middle xs a ys d.1 in
    ground (arith, contains-append x xs (a ∷ ys), contains-append x xs ys)

-- The members that pass a test, in order, and those that fail it, each pushed on a list.
unfoldable pub kept : (ℕ → Bool) → List ℕ → List ℕ
kept f [] = []
kept f (x ∷ xs) = if f x then kept f xs else x ∷ kept f xs

unfoldable pub lifted : (ℕ → Bool) → List ℕ → List ℕ → List ℕ
lifted f [] acc = acc
lifted f (x ∷ xs) acc = lifted f xs (if f x then x ∷ acc else acc)

pub kept_ext :
    (f g : ℕ → Bool) (xs : List ℕ)
    → ((x : ℕ) → contains x xs ≡ true → f x ≡ g x)
    → kept f xs ≡ kept g xs
unfolding kept contains
kept_ext f g [] h = refl
kept_ext f g (x ∷ xs) h = ground (arith, h x, kept_ext f g xs (λ y m. h y (ground arith)))

pub lifted_ext :
    (f g : ℕ → Bool) (xs acc : List ℕ)
    → ((x : ℕ) → contains x xs ≡ true → f x ≡ g x)
    → lifted f xs acc ≡ lifted g xs acc
unfolding lifted contains
lifted_ext f g [] acc h = refl
lifted_ext f g (x ∷ xs) acc h =
    rw (h x (ground arith))
      (lifted_ext f g xs (if g x then x ∷ acc else acc) (λ y m. h y (ground arith)))

-- Nothing is lost between the two.
pub count-kept_lifted :
    (a : ℕ) (f : ℕ → Bool) (xs acc : List ℕ)
    → count a (kept f xs) + count a (lifted f xs acc) ≡ count a xs + count a acc
unfolding kept lifted count
count-kept_lifted a f [] acc = omega arith
count-kept_lifted a f (x ∷ xs) acc =
    ground (arith, count-kept_lifted a f xs (x ∷ acc), count-kept_lifted a f xs acc)

pub contains-middle : (xs : List ℕ) (a : ℕ) (ys : List ℕ) → contains a (xs ++ a ∷ ys) ≡ true
unfolding contains
contains-middle [] a ys = ground arith
contains-middle (x ∷ xs) a ys = ground (arith, contains-middle xs a ys)

pub contains-kept :
    (a : ℕ) (f : ℕ → Bool) (xs : List ℕ)
    → contains a (kept f xs) ≡ (if f a then false else contains a xs)
unfolding contains kept
contains-kept a f [] = ground arith
contains-kept a f (x ∷ xs) = ground (arith, contains-kept a f xs)

pub contains-lifted :
    (a : ℕ) (f : ℕ → Bool) (xs acc : List ℕ)
    → contains a (lifted f xs acc)
      ≡ (if f a then contains a xs || contains a acc else contains a acc)
unfolding contains lifted
contains-lifted a f [] acc = ground arith
contains-lifted a f (x ∷ xs) acc =
    ground (arith, contains-lifted a f xs (x ∷ acc), contains-lifted a f xs acc)

pub kept-Distinct : (f : ℕ → Bool) (xs : List ℕ) → Distinct xs → Distinct (kept f xs)
unfolding kept
kept-Distinct f [] d = tt
kept-Distinct f (x ∷ xs) d = ground (arith, kept-Distinct f xs d.1, contains-kept x f xs)

pub lifted-Distinct :
    (f : ℕ → Bool) (xs acc : List ℕ)
    → Distinct xs
    → Distinct acc
    → ((x : ℕ) → contains x xs ≡ true → contains x acc ≡ false)
    → Distinct (lifted f xs acc)
unfolding lifted contains
lifted-Distinct f [] acc d e h = e
lifted-Distinct f (x ∷ xs) acc d e h =
    elim (f x) as (λ b. Distinct (lifted f xs (if b then x ∷ acc else acc))) [
      | true ↦
          lifted-Distinct f xs (x ∷ acc) d.1 (h x (ground arith), e)
            (λ y m. ground (arith, h y, d.0))
      | false ↦ lifted-Distinct f xs acc d.1 e (λ y m. h y (ground arith))
    ]
