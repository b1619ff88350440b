-- ===== src/Fault/Depth.antt =====
-- kern/trap/fault_handler.c: how deep page_fault_handler calls itself.
use fos_operational_system_f.Common.{
  ℕ, suc, ◌≤◌, ◌≡◌, refl, sym, ap, ◌∙◌, true, List, arith, ltb, if◌then◌else◌, length,
}
use fos_operational_system_f.Common.Outcome.{Outcome}
use fos_operational_system_f.Common.Ends.{Ends-cong}
use fos_operational_system_f.Frames.Map.{KernelHeap}
use fos_operational_system_f.PageFile.State.{Ide}
use fos_operational_system_f.Mmu.{page_size, rounddown}
use fos_operational_system_f.Fault.Clock.{clock_search}
use fos_operational_system_f.Fault.Victim.{is_page_in_ws}
use fos_operational_system_f.Fault.Process.{Process, space_of, evict, place_page}
use fos_operational_system_f.Fault.Replace.{
  take_out, mark_accessed, replace_clock, of_space, page_fault_handler, Replacement, lru, clock,
}
use fos_operational_system_f.Fault.Steady.{Same, evict-Same, clock_search-Stays}
use fos_operational_system_f.Fault.Sized.{Sized, Roomy, Same-Sized, take_out-Roomy}

module _ (D : Ide) (K : KernelHeap) (element m e va : ℕ) where
  -- Where there is room, page_fault_handler places the page.
  page_fault_handler-Roomy :
      (n : ℕ) (active : List ℕ) (zero_page : ℕ) (s : Process D.State)
      → Roomy m s
      → page_fault_handler D K element (suc n) clock active zero_page e va s
        ≡ place_page D K element e va s
  unfolding page_fault_handler
  page_fault_handler-Roomy n active zero_page s h =
      let room : ltb (length s.page_ws_list) s.page_ws_max_size ≡ true = ground (arith, h.0, h.1) in
      rw room refl

  -- Only what the call at the end of CLOCK replacement does where there is room matters to it.
  replace_clock-cong :
      (f g : Process D.State → Outcome (Process D.State) (Process D.State))
      → ((t : Process D.State) → Roomy m t → f t ≡ g t)
      → (active : List ℕ) (zero_page : ℕ) (s : Process D.State) → Sized m s
      → replace_clock D K element f active zero_page e va s
        ≡ replace_clock D K element g active zero_page e va s
  unfolding replace_clock
  replace_clock-cong f g k active zero_page s h =
      ap
        (λ x.
          if is_page_in_ws (space_of e s) active (rounddown va page_size)
          then mark_accessed e s
          else x)
        (Ends-cong (λ r. Unit {0}) (clock_search (suc (length s.page_ws_list)) (space_of e s)) _ _
          (clock_search-Stays (Same s.page_ws_list m) (suc (length s.page_ws_list)) (space_of e s))
          (λ r u.
            Ends-cong (Same s.page_ws_list m) (evict D K element zero_page e r.0 (of_space e s r.1))
              _ _
              (evict-Same D K element s.page_ws_list m zero_page e r.0 (of_space e s r.1)
                (refl, h.1))
              (λ t i.
                Ends-cong (Roomy m) (take_out K r.0 t) _ _
                  (take_out-Roomy D K element m e va r.0 t (Same-Sized s.page_ws_list m h.0 t i))
                  k)))

  -- With a working set that is not longer than page_WS_max_size, page_fault_handler calls itself
  -- once at most: more than two levels of fuel change nothing.
  page_fault_handler-fuel :
      (n : ℕ) (a : Replacement) (active : List ℕ) (zero_page : ℕ) (s : Process D.State)
      → length s.page_ws_list ≤ m
      → s.page_ws_max_size ≡ m
      → page_fault_handler D K element (suc (suc n)) a active zero_page e va s
        ≡ page_fault_handler D K element 2 a active zero_page e va s
  unfolding page_fault_handler
  page_fault_handler-fuel n lru active zero_page s h k = refl
  page_fault_handler-fuel n clock active zero_page s h k =
      ap
        (λ x.
          if ltb (length s.page_ws_list) s.page_ws_max_size
          then place_page D K element e va s
          else x)
        (replace_clock-cong (page_fault_handler D K element (suc n) clock active zero_page e va)
          (page_fault_handler D K element 1 clock active zero_page e va)
          (λ t r.
            page_fault_handler-Roomy n active zero_page t r
            ∙ sym (page_fault_handler-Roomy 0 active zero_page t r))
          active zero_page s (h, k))
