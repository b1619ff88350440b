-- ===== src/Fault/Clock.antt =====
-- kern/trap/fault_handler.c, page_fault_handler: the search of CLOCK replacement for its victim.
pub mod Circle
pub mod Round
pub mod Search
use fos_operational_system_f.Common.{
  ℕ, zero, suc, ◌≡◌, Bool, true, false, Option, none, some, List, [], ◌∷◌, ◌==◌, if◌then◌else◌,
  get_last?,
}
use fos_operational_system_f.Common.Outcome.{Outcome, ok, fault, ◌>>=◌}
use fos_operational_system_f.Mmu.{perm_used, has_bit}
use fos_operational_system_f.Space.{Space, pt_get_page_permissions, pt_clear_bit}

-- LIST_FIRST
abbrev pub first : List ℕ → Option ℕ
first [] = none
first (x ∷ xs) = some x

-- The element behind `p`, which `le_next` points to.
unfoldable pub le_next : List ℕ → ℕ → Option ℕ
le_next [] p = none
le_next (x ∷ xs) p = if x == p then first xs else le_next xs p

-- The step of the clock pointer: from the last element to the first.
unfoldable pub clock_next : List ℕ → ℕ → Option ℕ
unfolding get_last? le_next
clock_next ws p = elim (get_last? ws) [
  | none ↦ le_next ws p
  | some q ↦ if q == p then first ws else le_next ws p
]

-- The loop up to its victim, in at most `fuel` rounds; a null pointer is a fault.
unfoldable pub clock_search : {S : Type 0} → ℕ → Space → Outcome S (ℕ × Space)
clock_search zero s = fault
clock_search (suc fuel) s = elim s.page_last_ws_element [
  | none ↦ fault
  | some p ↦ elim (has_bit perm_used (pt_get_page_permissions s (s.wse p).virtual_address)) [
    | true ↦ pt_clear_bit s (s.wse p).virtual_address perm_used >>= λ t.
        clock_search fuel (record t { page_last_ws_element = clock_next s.page_ws_list p })
    | false ↦ ok (p, s)
  ]
]
