-- ===== src/Fault/Sized.antt =====
-- kern/trap/fault_handler.c: page_fault_handler and the size of the working set.
use fos_operational_system_f.Common.{
  ℕ, zero, suc, ◌≤◌, ◌≡◌, refl, sym, subst, ap, inl, inr, Option, none, some, List, [], ◌∷◌, ◌++◌,
  arith, ltb, length, length-append, erase,
}
use fos_operational_system_f.Common.Outcome.{Outcome}
use fos_operational_system_f.Common.Ends.{
  Ends, Ends-ok, Ends-fault, Ends-if, Ends-bind, Ends-weaken,
}
use fos_operational_system_f.Fault.Steady.{
  Same, length-rotate_out, length-erase, on_file-Ends, map_new_frame-Same, create_element-Same,
  check_read-Same, evict-Same, clock_search-Stays,
}
use fos_operational_system_f.PageFile.State.{Ide, lift_to}
use fos_operational_system_f.PageFile.Tables.{kfree_in}
use fos_operational_system_f.PageFile.Pages.{pf_read_env_page}
use fos_operational_system_f.Frames.Table.{pt_set_page_permissions}
use fos_operational_system_f.Frames.Map.{KernelHeap}
use fos_operational_system_f.Fault.Process.{
  Process, on_file, on_memory, directory, bring_in, place_page, check_read, map_new_frame,
  env_page_ws_list_create_element, reset_last, evict, replace_lru, insert_tail, space_of,
}
use fos_operational_system_f.Fault.Victim.{is_page_in_ws, lru_victim_in}
use fos_operational_system_f.Fault.Replace.{
  rotate_out, take_out, mark_accessed, replace_clock, of_space, page_fault_handler, Replacement,
  lru, clock,
}
use fos_operational_system_f.Fault.Clock.{clock_search}
use fos_operational_system_f.Mmu.{page_size, rounddown, perm_used}

-- The working set has no more than its bound `m` of elements.
abbrev pub Sized : {S : Type 0} → ℕ → Process S → Type 0
Sized m s = (length s.page_ws_list ≤ m) × (s.page_ws_max_size ≡ m)

abbrev pub Roomy : {S : Type 0} → ℕ → Process S → Type 0
Roomy m s = (suc (length s.page_ws_list) ≤ m) × (s.page_ws_max_size ≡ m)

pub Same-Sized :
    {S : Type 0} (l : List ℕ) (m : ℕ) → length l ≤ m → (s : Process S) → Same l m s → Sized m s
Same-Sized l m le s h = (subst (λ l. length l ≤ m) (sym h.0) le, h.1)

module _ (D : Ide) (K : KernelHeap) (element m e va : ℕ) where
  abbrev Keeps : Outcome (Process D.State) (Process D.State) → Type 0
  Keeps o = Ends (Sized m) (Sized m) o

  bring_in-Sized :
      (l : List ℕ) (perm : ℕ) (s : Process D.State)
      → Same l m s
      → suc (length l) ≤ m
      → Keeps (bring_in D K element e va perm s)
  unfolding bring_in
  bring_in-Sized l perm s h le =
      let weak = Same-Sized l m (omega (arith, le)) in
      Ends-bind (λ r. Same l m r.1) (map_new_frame K element e va perm s) _
        (Ends-weaken _ weak (λ a h. h) (map_new_frame-Same l m K element e va perm s h))
        (λ r i.
          Ends-bind (λ q. Unit {0}) (on_file r.1 (pf_read_env_page D K e va r.1.file)) _
            (Ends-weaken _ weak (λ a h. h) (on_file-Ends l m r.1 _ i))
            (λ q u.
              Ends-bind (Same l m) (check_read D K element e va r.0 r.1 q) _
                (Ends-weaken _ weak (λ a h. h) (check_read-Same D K element l m e va r.0 r.1 q i))
                (λ t j.
                  Ends-bind (λ v. Same l m v.1) (env_page_ws_list_create_element K element va t) _
                    (Ends-weaken _ weak (λ a h. h) (create_element-Same l m K element va t j))
                    (λ v k. Ends-ok (insert_tail v.0 v.1) (longer v.0 v.1 k, k.1)))))
    where
      longer : (a : ℕ) (t : Process D.State) → Same l m t → length (t.page_ws_list ++ a ∷ []) ≤ m
      longer a t k = rw (k.0) (omega (arith, length-append l (a ∷ []), le))

  place_page-Sized :
      (s : Process D.State)
      → s.page_ws_max_size ≡ m
      → suc (length s.page_ws_list) ≤ m
      → Keeps (place_page D K element e va s)
  unfolding place_page reset_last
  place_page-Sized s h le =
      Ends-bind (Sized m) (bring_in D K element e va 7 s) _
        (bring_in-Sized s.page_ws_list 7 s (refl, h) le) (λ t i. Ends-ok (reset_last t) i)

  replace_lru-Sized :
      (zero_page : ℕ) (s : Process D.State)
      → Sized m s
      → Keeps (replace_lru D K element zero_page e va s)
  unfolding replace_lru
  replace_lru-Sized zero_page s h = elim (lru_victim_in (space_of e s)) [
    | inl z ↦ rw (replace_lru, z) Ends-fault
    | inr (v, z, c) ↦
        let lost = length-erase v s.page_ws_list c in
        let weak = Same-Sized s.page_ws_list m h.0 in
        rw (replace_lru, z)
          (Ends-bind (Same s.page_ws_list m) (evict D K element zero_page e v s) _
            (Ends-weaken _ weak (λ a h. h)
              (evict-Same D K element s.page_ws_list m zero_page e v s (refl, h.1)))
            (λ t i.
              Ends-bind (λ q. Unit {0}) (on_file t (kfree_in K v t.file)) _
                (Ends-weaken _ weak (λ a h. h) (on_file-Ends s.page_ws_list m t _ i))
                (λ p u.
                  bring_in-Sized (erase v s.page_ws_list) 0x27
                    (record t { file = p; page_ws_list = erase v t.page_ws_list })
                    (ap (erase v) i.0, i.1) (omega (arith, lost, h.0)))))
  ]

  -- There is room for a page after the victim has gone.
  pub take_out-Roomy :
      (v : ℕ) (s : Process D.State) → Sized m s → Ends (Sized m) (Roomy m) (take_out K v s)
  unfolding take_out
  take_out-Roomy v s h = go (rotate_out (length s.page_ws_list) v s.page_ws_list) refl
    where
      go :
          (o : Option (List ℕ))
          → rotate_out (length s.page_ws_list) v s.page_ws_list ≡ o
          → Ends (Sized m) (Roomy m) (take_out K v s)
      go none z = rw (take_out, z) Ends-fault
      go (some r) z =
          let lost = length-rotate_out (length s.page_ws_list) v s.page_ws_list r z in
          rw (take_out, z)
            (Ends-bind (λ q. Unit {0}) (on_file s (kfree_in K v s.file)) _
              (Ends-weaken _ (Same-Sized s.page_ws_list m h.0) (λ a h. h)
                (on_file-Ends s.page_ws_list m s _ (refl, h.1)))
              (λ p u.
                Ends-ok (record s { file = p; page_ws_list = r }) (omega (arith, lost, h.0), h.1)))

  mark_accessed-Sized : (s : Process D.State) → Sized m s → Keeps (mark_accessed e s)
  unfolding mark_accessed
  mark_accessed-Sized s h = go s.page_last_ws_element refl
    where
      go : (o : Option ℕ) → s.page_last_ws_element ≡ o → Keeps (mark_accessed e s)
      go none z = rw (mark_accessed, z) Ends-fault
      go (some p) z =
          rw (mark_accessed, z)
            (Ends-bind (λ n. Unit {0})
              (on_file s (
                lift_to s.file (
                  pt_set_page_permissions (directory e s) (s.wse p).virtual_address perm_used 0
                    s.file.memory)))
              _
              (Ends-weaken _ (Same-Sized s.page_ws_list m h.0) (λ a h. h)
                (on_file-Ends s.page_ws_list m s _ (refl, h.1)))
              (λ n u. Ends-ok (on_memory s n) h))

  replace_clock-Sized :
      (again : Process D.State → Outcome (Process D.State) (Process D.State))
      → ((s : Process D.State) → Sized m s → Keeps (again s))
      → (active : List ℕ) (zero_page : ℕ) (s : Process D.State) → Sized m s
      → Keeps (replace_clock D K element again active zero_page e va s)
  unfolding replace_clock
  replace_clock-Sized again k active zero_page s h =
      Ends-if (is_page_in_ws (space_of e s) active (rounddown va page_size)) _ _
        (λ b. mark_accessed-Sized s h)
        (λ b.
          Ends-bind (λ r. Unit {0}) (clock_search (suc (length s.page_ws_list)) (space_of e s)) _
            (clock_search-Stays (Sized m) (suc (length s.page_ws_list)) (space_of e s))
            (λ r u.
              Ends-bind (Same s.page_ws_list m)
                (evict D K element zero_page e r.0 (of_space e s r.1)) _
                (Ends-weaken _ (Same-Sized s.page_ws_list m h.0) (λ a h. h)
                  (evict-Same D K element s.page_ws_list m zero_page e r.0 (of_space e s r.1)
                    (refl, h.1)))
                (λ t i.
                  Ends-bind (Sized m) (take_out K r.0 t) again
                    (Ends-weaken _ (λ a h. h) (λ a j. (omega (arith, j.0), j.1))
                      (take_out-Roomy r.0 t (Same-Sized s.page_ws_list m h.0 t i)))
                    k)))

  -- page_fault_handler never makes the working set longer than page_WS_max_size, by placement, LRU
  -- or CLOCK replacement, whatever the disk, the heap and the page tables do, and also where the
  -- process ends in it.
  pub page_fault_handler-Sized :
      (fuel : ℕ) (a : Replacement) (active : List ℕ) (zero_page : ℕ) (s : Process D.State)
      → length s.page_ws_list ≤ m
      → s.page_ws_max_size ≡ m
      → Ends (Sized m) (Sized m) (page_fault_handler D K element fuel a active zero_page e va s)
  unfolding page_fault_handler
  page_fault_handler-Sized zero a active zero_page s h k = Ends-fault
  page_fault_handler-Sized (suc fuel) lru active zero_page s h k =
      Ends-if (ltb (length s.page_ws_list) s.page_ws_max_size) _ _
        (λ b. place_page-Sized s k (ground (arith, b, k)))
        (λ b. replace_lru-Sized zero_page s (h, k))
  page_fault_handler-Sized (suc fuel) clock active zero_page s h k =
      Ends-if (ltb (length s.page_ws_list) s.page_ws_max_size) _ _
        (λ b. place_page-Sized s k (ground (arith, b, k)))
        (λ b.
          replace_clock-Sized (page_fault_handler D K element fuel clock active zero_page e va)
            (λ t i. page_fault_handler-Sized fuel clock active zero_page t i.0 i.1) active zero_page
            s (h, k))
