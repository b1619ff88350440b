-- ===== src/Fault/Release.antt =====
-- kern/mem/working_set_manager.c, kern/mem/chunk_operations.c: env_page_ws_invalidate and
-- free_user_mem.
use fos_operational_system_f.Common.{
  ℕ, zero, suc, ◌+◌, ◌%◌, ◌^◌, Option, none, some, List, [], ◌∷◌, ◌==◌, ltb, if◌then◌else◌, erase,
}
use fos_operational_system_f.Common.Outcome.{Outcome, ok, ◌>>=◌}
use fos_operational_system_f.Mmu.{page_size, rounddown, perm_uhpage}
use fos_operational_system_f.Space.{Element}
use fos_operational_system_f.Frames.Table.{pt_set_page_permissions}
use fos_operational_system_f.Frames.Map.{KernelHeap, unmap_frame}
use fos_operational_system_f.PageFile.State.{Ide, lift_to, set_memory}
use fos_operational_system_f.PageFile.Pages.{pf_read_env_page, pf_remove_env_page}
use fos_operational_system_f.PageFile.Tables.{kfree_in}
use fos_operational_system_f.Fault.Clock.{le_next}
use fos_operational_system_f.Fault.Process.{Process, Run, on_file, set_file, on_memory, directory}

-- The first element of the working set at the page of `va`.
unfoldable pub find_page : (ℕ → Element) → ℕ → List ℕ → Option ℕ
find_page w va [] = none
find_page w va (x ∷ xs) =
    if rounddown (w x).virtual_address page_size == rounddown va page_size
    then some x
    else find_page w va xs

-- The clock pointer, which leaves the element that goes.
abbrev pub pass_on : List ℕ → ℕ → Option ℕ → Option ℕ
pass_on l v none = none
pass_on l v (some p) = if p == v then le_next l v else some p

module _ {S : Type 0} (K : KernelHeap) where
  unfoldable pub remove_element : ℕ → Process S → ℕ → Outcome (Process S) (Process S)
  remove_element e s v =
      on_file s
        (lift_to s.file (unmap_frame (directory e s) (s.wse v).virtual_address s.file.memory))
      >>= λ m. on_file s (kfree_in K v (set_memory s.file m)) >>= λ p. ok (record s {
        file = p;
        page_ws_list = erase v s.page_ws_list;
        page_last_ws_element = pass_on s.page_ws_list v s.page_last_ws_element;
      })

  abbrev pub remove_found : ℕ → Process S → Option ℕ → Outcome (Process S) (Process S)
  remove_found e s none = ok s
  remove_found e s (some v) = remove_element e s v

  -- env_page_ws_invalidate, where the replacement is not LRU with lists.
  unfoldable pub env_page_ws_invalidate : ℕ → ℕ → Process S → Outcome (Process S) (Process S)
  env_page_ws_invalidate e va s = remove_found e s (find_page s.wse va s.page_ws_list)

module _ (D : Ide) (K : KernelHeap) (element : ℕ) where
  -- One turn of the loop of free_user_mem.
  unfoldable pub free_user_page : ℕ → ℕ → Process D.State → Run D K element
  free_user_page e va s =
      on_file s
        (lift_to s.file (pt_set_page_permissions (directory e s) va 0 perm_uhpage s.file.memory))
      >>= λ m.
          let t = on_memory s m in
          on_file t (pf_read_env_page D K e va t.file) >>= λ r.
          (if r.0 == 0 then on_file t (pf_remove_env_page K e va r.1) else ok r.1) >>= λ p.
          env_page_ws_invalidate K e va (set_file t p)

  -- The loop: `none` where the fuel does not do.
  unfoldable pub free_user_pages :
      ℕ → ℕ → ℕ → ℕ → Process D.State → Outcome (Process D.State) (Option (Process D.State))
  free_user_pages zero e va end s = ok none
  free_user_pages (suc fuel) e va end s =
      if ltb va end
      then free_user_page e va s >>= free_user_pages fuel e ((va + page_size) % 2 ^ 32) end
      else ok (some s)

  unfoldable pub free_user_mem :
      ℕ → ℕ → ℕ → ℕ → Process D.State → Outcome (Process D.State) (Option (Process D.State))
  free_user_mem fuel e va size s = free_user_pages fuel e va ((va + size) % 2 ^ 32) s
