-- ===== src/Space/Aging/Aged.antt =====
-- kern/cpu/sched.c, update_WS_time_stamps: what one aging step does to the working set.
use fos_operational_system_f.Common.{
  ℕ, ◌+◌, ◌-◌, ◌/◌, ◌^◌, ◌≡◌, ◌≢◌, Bool, true, false, some, List, if◌then◌else◌, contains, Distinct,
}
use fos_operational_system_f.Mmu.{page_size, perm_used, has_bit}
use fos_operational_system_f.Space.{Space, pt_get_page_permissions}

abbrev pub page_of : Space → ℕ → ℕ
page_of s p = (s.wse p).virtual_address / page_size

-- PERM_USED of the page of an element.
unfoldable pub is_used : Space → ℕ → Bool
unfolding pt_get_page_permissions
is_used s p = has_bit perm_used (pt_get_page_permissions s (s.wse p).virtual_address)

-- The elements of `ps` are on the list once each, their pages have page tables, and no two are of
-- the same page.
pub record WorkingSet (ps : List ℕ) (s : Space) : Type 0 where
  pub once : Distinct ps
  pub table : (p : ℕ) → contains p ps ≡ true → (e : ℕ) × (s.pte (page_of s p) ≡ some e)
  pub apart :
      (p q : ℕ) → contains p ps ≡ true → contains q ps ≡ true → p ≢ q → page_of s p ≢ page_of s q

-- The element `p` has been aged, from `s` to `t`.
pub record Aged (p : ℕ) (s t : Space) : Type 0 where
  pub address : (t.wse p).virtual_address ≡ (s.wse p).virtual_address
  pub stamp : (t.wse p).time_stamp ≡ (s.wse p).time_stamp / 2 + (if is_used s p then 2 ^ 31 else 0)
  pub unused : is_used t p ≡ false
  pub entry :
      (e : ℕ)
      → s.pte (page_of s p) ≡ some e
      → t.pte (page_of s p) ≡ some (e - (if is_used s p then 32 else 0))

-- Nothing else has changed than the elements of `ps` and the entries of their pages.
pub record Rest (ps : List ℕ) (s t : Space) : Type 0 where
  pub elements : (x : ℕ) → contains x ps ≡ false → t.wse x ≡ s.wse x
  pub entries : (k : ℕ) → ((p : ℕ) → contains p ps ≡ true → page_of s p ≢ k) → t.pte k ≡ s.pte k
  pub ws_list : t.page_ws_list ≡ s.page_ws_list
  pub last : t.page_last_ws_element ≡ s.page_last_ws_element

record Step (p : ℕ) (s t : Space) : Type 0 where
  aged : Aged p s t
  elements : (x : ℕ) → x ≢ p → t.wse x ≡ s.wse x
  entries : (k : ℕ) → page_of s p ≢ k → t.pte k ≡ s.pte k
  ws_list : t.page_ws_list ≡ s.page_ws_list
  last : t.page_last_ws_element ≡ s.page_last_ws_element
