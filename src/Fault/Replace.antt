-- ===== src/Fault/Replace.antt =====
-- kern/trap/fault_handler.c: page_fault_handler, with LRU and CLOCK replacement.
use fos_operational_system_f.Common.{
  ℕ, zero, suc, ◌/◌, ◌%◌, Option, none, some, List, [], ◌∷◌, ◌++◌, ◌==◌, ltb, if◌then◌else◌, length,
}
use fos_operational_system_f.Common.Outcome.{Outcome, ok, fault, ◌>>=◌}
use fos_operational_system_f.Mmu.{page_size, rounddown, perm_used}
use fos_operational_system_f.Space.{Space}
use fos_operational_system_f.Frames.State.{Memory}
use fos_operational_system_f.Frames.Table.{pt_set_page_permissions}
use fos_operational_system_f.Frames.Map.{KernelHeap}
use fos_operational_system_f.PageFile.State.{Ide, lift_to}
use fos_operational_system_f.PageFile.Tables.{kfree_in}
use fos_operational_system_f.Fault.Clock.{clock_search}
use fos_operational_system_f.Fault.Victim.{is_page_in_ws}
use fos_operational_system_f.Fault.Process.{
  Process, Run, on_file, on_memory, directory, space_of, evict, place_page, replace_lru,
}

pub data Replacement : Type 0 where
  lru : Replacement
  clock : Replacement

-- The loop that moves elements from the head of the working set to its tail until the victim
-- stands at the head, and takes the victim out; `none` where it meets a null pointer or where
-- `fuel` rounds do not do.
unfoldable pub rotate_out : ℕ → ℕ → List ℕ → Option (List ℕ)
rotate_out zero v l = none
rotate_out (suc fuel) v [] = none
rotate_out (suc fuel) v (x ∷ xs) = if x == v then some xs else rotate_out fuel v (xs ++ x ∷ [])

-- The entries of `e` as the search for a victim leaves them.
abbrev pub entries_of : ℕ → Space → Memory → Memory
entries_of dir t m = record m {
  entries = λ n.
      if n / 0x100000 == dir
      then elim (t.pte (n % 0x100000)) [ none ↦ m.entries n | some w ↦ w ]
      else m.entries n;
}

module _ {S : Type 0} where
  -- The process after the search for a victim.
  abbrev pub of_space : ℕ → Process S → Space → Process S
  of_space e s t = record (on_memory s (entries_of (directory e s) t s.file.memory)) {
    page_last_ws_element = t.page_last_ws_element;
  }

  -- The victim of CLOCK replacement leaves the working set.
  unfoldable pub take_out : KernelHeap → ℕ → Process S → Outcome (Process S) (Process S)
  take_out K v s = elim (rotate_out (length s.page_ws_list) v s.page_ws_list) [
    | none ↦ fault
    | some l ↦ on_file s (kfree_in K v s.file) >>= λ p. ok (record s { file = p; page_ws_list = l })
  ]

  -- CLOCK replacement of a page that the active working set of OPTIMAL holds.
  unfoldable pub mark_accessed : ℕ → Process S → Outcome (Process S) (Process S)
  mark_accessed e s = elim s.page_last_ws_element [
    | none ↦ fault
    | some p ↦
        on_file s (
          lift_to s.file (
            pt_set_page_permissions (directory e s) (s.wse p).virtual_address perm_used 0
              s.file.memory))
        >>= λ m. ok (on_memory s m)
  ]

module _ (D : Ide) (K : KernelHeap) (element : ℕ) where
  -- CLOCK replacement; `again` is the call of page_fault_handler at its end.
  unfoldable pub replace_clock :
      (Process D.State → Run D K element) → List ℕ → ℕ → ℕ → ℕ → Process D.State → Run D K element
  replace_clock again active zero_page e va s =
      if is_page_in_ws (space_of e s) active (rounddown va page_size)
      then mark_accessed e s
      else clock_search (suc (length s.page_ws_list)) (space_of e s) >>= λ r.
          evict D K element zero_page e r.0 (of_space e s r.1) >>= λ t. take_out K r.0 t >>= again

  -- page_fault_handler; `fuel` bounds how deep it calls itself.
  unfoldable pub page_fault_handler :
      ℕ → Replacement → List ℕ → ℕ → ℕ → ℕ → Process D.State → Run D K element
  page_fault_handler zero a active zero_page e va s = fault
  page_fault_handler (suc fuel) lru active zero_page e va s =
      if ltb (length s.page_ws_list) s.page_ws_max_size
      then place_page D K element e va s
      else replace_lru D K element zero_page e va s
  page_fault_handler (suc fuel) clock active zero_page e va s =
      if ltb (length s.page_ws_list) s.page_ws_max_size
      then place_page D K element e va s
      else replace_clock (page_fault_handler fuel clock active zero_page e va) active zero_page e va
          s
