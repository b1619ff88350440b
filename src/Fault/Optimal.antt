-- ===== src/Fault/Optimal.antt =====
-- kern/trap/fault_handler.c, get_optimal_num_faults: the page faults of the OPTIMAL replacement.
pub mod Furthest
pub mod Resident
use fos_operational_system_f.Common.{
  ℕ, zero, suc, ◌+◌, ◌-◌, ◌*◌, ◌%◌, ◌^◌, ◌≡◌, refl, Bool, true, false, Option, none, some, List, [],
  ◌∷◌, ◌++◌, arith, ◌==◌, ltb, if◌then◌else◌, contains, length,
}
use fos_operational_system_f.Common.Outcome.{Outcome, ok, panic, fault, ◌>>=◌}
use fos_operational_system_f.Kheap.State.{Kheap}
use fos_operational_system_f.Kheap.Alloc.{BlockAllocator, kmalloc}

abbrev pub never : ℕ
never = 1000000000

-- The loop over `j`: how many references come before the next one to `va`, or `never`.
unfoldable pub ws_steps : ℕ → List ℕ → Option ℕ
ws_steps va [] = none
ws_steps va (r ∷ rs) =
    if va == r then some 0 else elim (ws_steps va rs) [ none ↦ none | some n ↦ some (suc n) ]

unfoldable pub distance : ℕ → List ℕ → ℕ
unfolding ws_steps
distance va rs = elim (ws_steps va rs) [ none ↦ never | some n ↦ n ]

-- The loop over `k`: `steps` and `index` are the largest distance so far and where it was.
unfoldable pub furthest : List ℕ → List ℕ → ℕ → ℕ → ℕ → ℕ
furthest rs [] k steps index = index
furthest rs (va ∷ ws) k steps index =
    let d = distance va rs in
    if ltb steps d then furthest rs ws (suc k) d k else furthest rs ws (suc k) steps index

-- `ws_copy[i] = va`; out of range, which an array of no elements is at 0, is undefined.
unfoldable pub store : List ℕ → ℕ → ℕ → Option (List ℕ)
store [] i va = none
store (x ∷ ws) zero va = some (va ∷ ws)
store (x ∷ ws) (suc i) va = elim (store ws i va) [ none ↦ none | some l ↦ some (x ∷ l) ]

-- One reference `r`, with `rs` still to come: the working set and the fault count after it.
unfoldable pub reference : ℕ → ℕ → List ℕ → List ℕ × ℕ → Option (List ℕ × ℕ)
reference max r rs (ws, n) =
    if contains r ws
    then some (ws, n)
    else if length ws == max
    then (elim (store ws (furthest rs ws 0 0 0) r) [ none ↦ none | some l ↦ some (l, n + 1) ])
    else some (ws ++ r ∷ [], n + 1)

unfoldable pub references : ℕ → List ℕ → List ℕ × ℕ → Option (List ℕ × ℕ)
references max [] p = some p
references max (r ∷ rs) p = elim (reference max r rs p) [
  | none ↦ none
  | some q ↦ references max rs q
]

-- The copy of the initial working set.
unfoldable pub copy_ws : ℕ → List ℕ → List ℕ
copy_ws zero l = []
copy_ws (suc max) [] = []
copy_ws (suc max) (va ∷ l) = va ∷ copy_ws max l

-- The lists are given by their addresses. The copy of the references is never freed.
unfoldable pub get_optimal_num_faults :
    BlockAllocator → List ℕ → ℕ → List ℕ → Kheap → Outcome Kheap (ℕ × Kheap)
get_optimal_num_faults d init max refs h = kmalloc d (4 * length refs % 2 ^ 32) h >>= λ p.
    if p.0 == 0 then panic else (elim (references max refs (copy_ws max init, 0)) [
      | none ↦ fault
      | some q ↦ ok (q.1, p.1)
    ])
