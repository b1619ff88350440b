-- ===== src/Space.antt =====
-- The address space of a process as the page replacement sees it (inc/environment_definitions.h,
-- kern/mem/paging_helpers.c): the working set list, its elements, and the page table entries.

pub mod Aging
pub mod Steady
pub mod Examples
use fos_operational_system_f.Common.{
  ℕ, ◌+◌, ◌-◌, ◌/◌, ◌%◌, ◌^◌, ◌≡◌, refl, Bool, true, false, Option, none, some, List, [], ◌∷◌,
  arith, ◌==◌, if◌then◌else◌, update,
}
use fos_operational_system_f.Common.Outcome.{Outcome, ok, leaves, panic, fault, ◌>>=◌}
use fos_operational_system_f.Mmu.{page_size, set_bit, clear_bit}

-- `struct WorkingSetElement`
pub record Element : Type 0 where
  pub virtual_address : ℕ
  pub time_stamp : ℕ
  pub sweeps_counter : ℕ

-- The part of `struct Env` and of its page directory that paging works on. A pointer to an element
-- is a number, and `wse` is what it points to. `pte` maps a page number to its page table entry,
-- `none` where the directory has no table.
pub record Space : Type 0 where
  pub page_ws_list : List ℕ
  pub wse : ℕ → Element
  pub page_ws_max_size : ℕ
  pub page_last_ws_element : Option ℕ
  pub pte : ℕ → Option ℕ

-- The entry's low 12 bits; -1, all ones in 32 bits, if there is no table.
unfoldable pub pt_get_page_permissions : Space → ℕ → ℕ
pt_get_page_permissions s va = elim (s.pte (va / page_size)) [
  | none ↦ 0xFFFFFFFF
  | some e ↦ e % 4096
]

-- `pt_set_page_permissions(dir, va, m, 0)` at a mask of one bit.
unfoldable pub pt_set_bit : {S : Type 0} → Space → ℕ → ℕ → Outcome S Space
pt_set_bit s va m = elim (s.pte (va / page_size)) [
  | none ↦ panic
  | some e ↦ ok (record s { pte = update s.pte (va / page_size) (some (set_bit m e)) })
]

-- `pt_set_page_permissions(dir, va, 0, m)` at a mask of one bit.
unfoldable pub pt_clear_bit : {S : Type 0} → Space → ℕ → ℕ → Outcome S Space
pt_clear_bit s va m = elim (s.pte (va / page_size)) [
  | none ↦ panic
  | some e ↦ ok (record s { pte = update s.pte (va / page_size) (some (clear_bit m e)) })
]
