-- ===== src/Space/Aging.antt =====
-- kern/cpu/sched.c, update_WS_time_stamps: the aging step of the LRU approximation.
pub mod Aged
use fos_operational_system_f.Common.{ℕ, ◌+◌, ◌/◌, ◌^◌, List, [], ◌∷◌, if◌then◌else◌, update}
use fos_operational_system_f.Common.Outcome.{Outcome, ok, ◌>>=◌}
use fos_operational_system_f.Mmu.{perm_used, has_bit}
use fos_operational_system_f.Space.{Space, pt_get_page_permissions, pt_clear_bit}

-- The loop body: shift the stamp right, and move the used bit into its top bit.
unfoldable pub age_element : {S : Type 0} → Space → ℕ → Outcome S Space
unfolding pt_get_page_permissions pt_clear_bit
age_element s p =
    let w = s.wse p in
    let va = w.virtual_address in
    if has_bit perm_used (pt_get_page_permissions s va)
    then pt_clear_bit
        (record s { wse = update s.wse p (record w { time_stamp = w.time_stamp / 2 + 2 ^ 31 }) }) va
        perm_used
    else ok (record s { wse = update s.wse p (record w { time_stamp = w.time_stamp / 2 }) })

unfoldable pub age_elements : {S : Type 0} → List ℕ → Space → Outcome S Space
age_elements [] s = ok s
age_elements (p ∷ ps) s = age_element s p >>= age_elements ps

unfoldable pub update_ws_time_stamps : {S : Type 0} → Space → Outcome S Space
unfolding age_elements
update_ws_time_stamps s = age_elements s.page_ws_list s
