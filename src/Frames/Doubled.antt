-- ===== src/Frames/Doubled.antt =====
-- kern/trap/fault_handler.c, kern/proc/user_environment.c: unmap_frame and then free_frame of the
-- frame that the page held, as the placement of a page on its error path, the LRU replacement on
-- its own and delete_user_kern_stack do.
use fos_operational_system_f.Common.{refl, ℕ, ◌≡◌, ap, ◌∙◌, inl, inr, true, none, arith, contains}
use fos_operational_system_f.Common.Outcome.{fault}
use fos_operational_system_f.Frames.State.{Memory, slot, pdx, free_frame}
use fos_operational_system_f.Frames.Table.{entry_frame, holds_frame}
use fos_operational_system_f.Frames.Stack.{delete_stack_page}
use fos_operational_system_f.Frames.Valid.{FramesValid}
use fos_operational_system_f.Frames.Unmapped.{unmap_frame_lem, get_frame_info_held}

-- From a valid state, a turn of delete_user_kern_stack's loop at a page that is its frame's only
-- reference gives the frame back twice, so that the free list is corrupted.
pub delete_stack_page_lem :
    (base : ℕ → ℕ) (n : ℕ) (m : Memory) (dir va : ℕ)
    → FramesValid base n none m
    → m.has_table dir (pdx va) ≡ true
    → holds_frame (m.entries (slot dir va)) ≡ true
    → (m.frames_info (entry_frame (m.entries (slot dir va)))).references ≡ 1
    → delete_stack_page dir va m ≡ fault
unfolding delete_stack_page free_frame contains
delete_stack_page_lem base n m dir va v table held one =
    let (k, call, d) = unmap_frame_lem base n none m dir va v table in
    let found = get_frame_info_held dir va m table held (v.real (slot dir va) held) in
    elim d [
      | inl h ↦ absurd (ground (arith, h.0, held))
      | inr (_, _, _, _, _, listed) ↦
          let there : contains (entry_frame (m.entries (slot dir va))) k.free_frame_list ≡ true =
            ap (contains (entry_frame (m.entries (slot dir va)))) listed
            ∙ rw (one) (ground arith) in
          rw (found, call, there) refl
    ]
