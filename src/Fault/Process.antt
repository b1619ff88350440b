-- ===== src/Fault/Process.antt =====
-- kern/trap/fault_handler.c, kern/mem/working_set_manager.c: the pages of a process, in memory and
-- in the page file, and placement of the page that it faults on.
use fos_operational_system_f.Common.{
  ℕ, ◌+◌, ◌*◌, ◌/◌, not, ◌&&◌, ◌||◌, Option, none, some, List, [], ◌∷◌, ◌++◌, ◌==◌, ltb,
  if◌then◌else◌, update, length, erase,
}
use fos_operational_system_f.Common.Outcome.{
  Outcome, ok, leaves, panic, fault, ◌>>=◌, to_scheduler, assert_then,
}
use fos_operational_system_f.Mmu.{page_size, rounddown, has_bit, perm_modified}
use fos_operational_system_f.Space.{Element, Space}
use fos_operational_system_f.Frames.State.{Memory, slot, pdx, allocate_frame, free_frame}
use fos_operational_system_f.Frames.Table.{get_frame_info}
use fos_operational_system_f.Frames.Map.{KernelHeap, map_frame, unmap_frame}
use fos_operational_system_f.PageFile.State.{
  Ide, PageFile, lift_to, set_memory, user_top, e_page_not_exist_in_pf,
}
use fos_operational_system_f.PageFile.Pages.{pf_read_env_page, pf_update_env_page, may_grow}
use fos_operational_system_f.PageFile.Tables.{kfree_in}
use fos_operational_system_f.Fault.Clock.{first}
use fos_operational_system_f.Fault.Victim.{lru_victim}

-- The faulted process: its working set, whose elements are numbers that `wse` looks up, over the
-- memory and the page file.
pub record Process (S : Type 0) : Type 0 where
  pub file : PageFile S
  pub page_ws_list : List ℕ
  pub wse : ℕ → Element
  pub page_ws_max_size : ℕ
  pub page_last_ws_element : Option ℕ

module _ {S : Type 0} where
  -- A call of the page file, and one of the memory manager or the heap.
  abbrev pub on_file : {A : Type 0} → Process S → Outcome (PageFile S) A → Outcome (Process S) A
  on_file s (ok a) = ok a
  on_file s (leaves x p) = leaves x (record s { file = p })
  on_file s panic = panic
  on_file s fault = fault

  abbrev pub set_file : Process S → PageFile S → Process S
  set_file s p = record s { file = p }

  abbrev pub on_memory : Process S → Memory → Process S
  on_memory s m = set_file s (set_memory s.file m)

  abbrev pub directory : ℕ → Process S → ℕ
  directory e s = (s.file.envs e).env_page_directory

  -- The working set and the page table entries as the search for an LRU victim sees them.
  abbrev pub space_of : ℕ → Process S → Space
  space_of e s = record {
    page_ws_list = s.page_ws_list;
    wse = s.wse;
    page_ws_max_size = s.page_ws_max_size;
    page_last_ws_element = s.page_last_ws_element;
    pte = λ n.
        if s.file.memory.has_table (directory e s) (n / 1024)
        then some (s.file.memory.entries (directory e s * 0x100000 + n))
        else none;
  }

  -- env_page_ws_list_create_element with the pointer that kmalloc gave.
  unfoldable pub new_element : ℕ → ℕ → Process S → Process S
  new_element a va s = record s {
    wse =
        update s.wse a
          (record { virtual_address = rounddown va page_size; time_stamp = 0; sweeps_counter = 0 });
  }

  -- LIST_INSERT_TAIL
  abbrev pub insert_tail : ℕ → Process S → Process S
  insert_tail a s = record s { page_ws_list = s.page_ws_list ++ a ∷ [] }

  -- The clock pointer after placement.
  unfoldable pub reset_last : Process S → Process S
  reset_last s = record s {
    page_last_ws_element =
        if length s.page_ws_list == s.page_ws_max_size then first s.page_ws_list else none;
  }

module _ {S : Type 0} (K : KernelHeap) (element : ℕ) where
  -- env_page_ws_list_create_element, where a WorkingSetElement has `element` bytes.
  unfoldable pub env_page_ws_list_create_element :
      ℕ → Process S → Outcome (Process S) (ℕ × Process S)
  env_page_ws_list_create_element va s = assert_then (ltb va user_top) (
      on_file s (lift_to s.file (K.kmalloc element s.file.memory)) >>= λ r.
      if r.0 == 0 then panic else ok (r.0, new_element r.0 va (on_memory s r.1)))

  -- allocate_frame and map_frame: the frame, and the state.
  unfoldable pub map_new_frame : ℕ → ℕ → ℕ → Process S → Outcome (Process S) (ℕ × Process S)
  map_new_frame e va perm s = on_file s (lift_to s.file (allocate_frame s.file.memory)) >>= λ r.
      on_file s (lift_to s.file (map_frame K (directory e s) r.0 va perm r.1)) >>= λ m.
      ok (r.0, on_memory s m)

  -- A page that cannot be read and may not be added ends the process.
  unfoldable pub drop_frame : ℕ → ℕ → ℕ → Process S → Outcome (Process S) (Process S)
  drop_frame e va f s =
      on_file s (lift_to s.file (unmap_frame (directory e s) va s.file.memory)) >>= λ m.
      on_file (on_memory s m) (lift_to s.file (free_frame f m)) >>= λ n.
      leaves to_scheduler (on_memory s n)

module _ (D : Ide) (K : KernelHeap) (element : ℕ) where
  abbrev pub Run : Type 0
  Run = Outcome (Process D.State) (Process D.State)

  abbrev pub check_read : ℕ → ℕ → ℕ → Process D.State → ℕ × PageFile D.State → Run
  check_read e va f s r =
      if (r.0 == e_page_not_exist_in_pf) && not (may_grow element va)
      then drop_frame K element e va f (set_file s r.1)
      else ok (set_file s r.1)

  -- What placement and LRU replacement do alike: the page in its new frame, and its element.
  unfoldable pub bring_in : ℕ → ℕ → ℕ → Process D.State → Run
  bring_in e va perm s = map_new_frame K element e va perm s >>= λ r.
      on_file r.1 (pf_read_env_page D K e va r.1.file) >>= λ q. check_read e va r.0 r.1 q >>= λ t.
      env_page_ws_list_create_element K element va t >>= λ u. ok (insert_tail u.0 u.1)

  -- The placement of page_fault_handler: PERM_USER, PERM_PRESENT and PERM_WRITEABLE.
  unfoldable pub place_page : ℕ → ℕ → Process D.State → Run
  place_page e va s = bring_in e va 7 s >>= λ t. ok (reset_last t)

  -- Writing a victim back, if it is modified, and unmapping it.
  unfoldable pub write_back : ℕ → ℕ → ℕ → Process D.State → Run
  write_back zero_page e va s =
      let m = s.file.memory in
      if has_bit perm_modified (m.entries (slot (directory e s) va))
        || not (m.has_table (directory e s) (pdx va))
      then (on_file s (lift_to s.file (get_frame_info (directory e s) va m)) >>= λ f.
          on_file s (pf_update_env_page D K element zero_page e va s.file) >>= λ r.
          ok (set_file s r.1))
      else ok s

  unfoldable pub evict : ℕ → ℕ → ℕ → Process D.State → Run
  evict zero_page e v s =
      let va = (s.wse v).virtual_address in
      write_back zero_page e va s >>= λ t.
      on_file t (lift_to t.file (unmap_frame (directory e t) va t.file.memory)) >>= λ m.
      ok (on_memory t m)

  -- LRU replacement, which follows a null pointer if there is no victim: PERM_USED as well.
  unfoldable pub replace_lru : ℕ → ℕ → ℕ → Process D.State → Run
  replace_lru zero_page e va s = elim (lru_victim (space_of e s)) [
    | none ↦ fault
    | some v ↦ evict zero_page e v s >>= λ t. on_file t (kfree_in K v t.file) >>= λ p.
        bring_in e va 0x27 (record t { file = p; page_ws_list = erase v t.page_ws_list })
  ]
