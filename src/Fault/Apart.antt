-- ===== src/Fault/Apart.antt =====
-- kern/mem/working_set_manager.c: the search for a page in a working set that has no page twice.
use fos_operational_system_f.Common.{
  ℕ, ◌≡◌, refl, true, false, none, some, List, [], ◌∷◌, arith, ◌==◌, if◌then◌else◌, erase,
}
use fos_operational_system_f.Mmu.{page_size, rounddown}
use fos_operational_system_f.Space.{Element}
use fos_operational_system_f.Fault.Release.{find_page}

-- No page is in the working set twice.
abbrev pub Apart : (ℕ → Element) → List ℕ → Type 0
Apart w [] = Unit {0}
Apart w (x ∷ xs) = (find_page w (w x).virtual_address xs ≡ none) × Apart w xs

pub find_page-erase-none :
    (w : ℕ → Element) (va v : ℕ) (l : List ℕ)
    → find_page w va l ≡ none
    → find_page w va (erase v l) ≡ none
unfolding find_page erase
find_page-erase-none w va v [] h = refl
find_page-erase-none w va v (x ∷ xs) h = ground (arith, h, find_page-erase-none w va v xs)

pub erase-Apart : (w : ℕ → Element) (v : ℕ) (l : List ℕ) → Apart w l → Apart w (erase v l)
unfolding erase
erase-Apart w v [] h = tt
erase-Apart w v (x ∷ xs) h = elim (x == v) as (λ b. Apart w (if b then xs else x ∷ erase v xs)) [
  | true ↦ h.1
  | false ↦ (find_page-erase-none w (w x).virtual_address v xs h.0, erase-Apart w v xs h.1)
]

find_page-same :
    (w : ℕ → Element) (a b : ℕ) (l : List ℕ)
    → rounddown a page_size ≡ rounddown b page_size
    → find_page w a l ≡ find_page w b l
unfolding find_page
find_page-same w a b [] h = refl
find_page-same w a b (x ∷ xs) h = ground (arith, h, find_page-same w a b xs h)

find_page-at :
    (w : ℕ → Element) (va v : ℕ) (l : List ℕ)
    → find_page w va l ≡ some v
    → rounddown (w v).virtual_address page_size ≡ rounddown va page_size
unfolding find_page
find_page-at w va v [] h = ground (arith, h)
find_page-at w va v (x ∷ xs) h = ground (arith, h, find_page-at w va v xs)

-- The element that was found was the only one at its page.
pub find_page-erase :
    (w : ℕ → Element) (va v : ℕ) (l : List ℕ)
    → Apart w l
    → find_page w va l ≡ some v
    → find_page w va (erase v l) ≡ none
unfolding find_page erase
find_page-erase w va v [] d h = refl
find_page-erase w va v (x ∷ xs) d h = ground (
  arith,
  h,
  find_page-at w va v (x ∷ xs),
  find_page-erase w va v xs d.1,
  find_page-same w va (w x).virtual_address xs,
  d.0,
)
