-- ===== src/PageFile/Pages.antt =====
-- kern/disk/pagefile_manager.c: the disk frames, and the pages that a process has in the page file.
use fos_operational_system_f.Common.{
  ℕ, zero, suc, ◌+◌, ◌-◌, ◌*◌, ◌/◌, ◌%◌, ◌&&◌, ◌||◌, Bool, true, false, Option, none, some, List,
  [], ◌∷◌, ◌==◌, ltb, leb, if◌then◌else◌, update, contains,
}
use fos_operational_system_f.Common.Outcome.{Outcome, ok, panic, fault, ◌>>=◌, assert_then}
use fos_operational_system_f.Mmu.{page_size, set_bit, perm_present, perm_modified, rounddown}
use fos_operational_system_f.Frames.State.{Memory, slot, pdx, set_entry}
use fos_operational_system_f.Frames.Table.{bits_or, bits_clear, pt_set_page_permissions}
use fos_operational_system_f.Frames.Map.{KernelHeap}
use fos_operational_system_f.Frames.UserMem.{
  user_heap_start, user_heap_max, ustackbottom, ustacktop,
}
use fos_operational_system_f.PageFile.State.{
  Ide, PageFile, table_slot, pages_per_file, user_top, kernel_base, e_no_page_file_space,
  e_page_not_exist_in_pf, e_no_vm, lift_to, set_memory, set_env, read_disk_page, write_disk_page,
}

-- The loop of initialize_disk_page_file over `left` frames from `i` on.
unfoldable pub insert_disk_frames : ℕ → ℕ → List ℕ → List ℕ
insert_disk_frames i zero l = l
insert_disk_frames i (suc left) l = insert_disk_frames (i + 1) left (i ∷ l)

unfoldable pub initialize_disk_page_file : {S : Type 0} → PageFile S → PageFile S
initialize_disk_page_file p = record p {
  disk_free_frame_list = insert_disk_frames 1 (pages_per_file - 1) [];
}

-- allocate_disk_frame; `none` is E_NO_PAGE_FILE_SPACE.
abbrev pub take_first : {S : Type 0} → PageFile S → List ℕ → Option (ℕ × PageFile S)
take_first p [] = none
take_first p (d ∷ l) = some (d, record p { disk_free_frame_list = l })

abbrev pub allocate_disk_frame : {S : Type 0} → PageFile S → Option (ℕ × PageFile S)
allocate_disk_frame p = take_first p p.disk_free_frame_list

-- free_disk_frame; to insert a frame that is on the list corrupts the list.
unfoldable pub free_disk_frame : {S : Type 0} → ℕ → PageFile S → Outcome (PageFile S) (PageFile S)
free_disk_frame d p =
    if d == 0
    then ok p
    else if leb pages_per_file d || contains d p.disk_free_frame_list
    then fault
    else ok (record p { disk_free_frame_list = d ∷ p.disk_free_frame_list })

module _ {S : Type 0} where
  -- What get_disk_page_directory and get_disk_page_table do with the page that kmalloc gave.
  unfoldable pub new_directory : ℕ → ℕ → PageFile S → PageFile S
  new_directory e a p = record (set_env p e (record (p.envs e) { disk_env_pgdir = a })) {
    disk_tables = λ t. if t / 1024 == e then 0 else p.disk_tables t;
  }

  unfoldable pub new_table : ℕ → ℕ → PageFile S → PageFile S
  new_table t a p = record p {
    disk_tables = update p.disk_tables t a;
    page_dfns = λ s. if s / 1024 == t then 0 else p.page_dfns s;
  }

  -- Taking a disk frame for the page, in pf_add_empty_env_page and pf_add_env_page.
  abbrev pub put_dfn :
      ℕ → ℕ → PageFile S → Option (ℕ × PageFile S) → Outcome (PageFile S) (ℕ × ℕ × PageFile S)
  put_dfn e va p none = ok (e_no_page_file_space, 0, p)
  put_dfn e va p (some (d, q)) =
      ok (0, d, record q { page_dfns = update q.page_dfns (slot e va) d })

module _ {S : Type 0} (K : KernelHeap) where
  -- get_disk_page_directory, whose result every caller puts in disk_env_pgdir.
  unfoldable pub get_disk_page_directory : ℕ → PageFile S → Outcome (PageFile S) (ℕ × PageFile S)
  get_disk_page_directory e p =
      if (p.envs e).disk_env_pgdir == 0
      then (lift_to p (K.kmalloc page_size p.memory) >>= λ r.
          if r.0 == 0
          then ok (e_no_vm, set_memory p r.1)
          else ok (0, new_directory e r.0 (set_memory p r.1)))
      else ok (0, p)

  -- get_disk_page_table, with the table it sets for its caller; no caller looks at its return
  -- code. The address that it forms for a table of the kernel's addresses is not the table's.
  unfoldable pub get_disk_page_table :
      ℕ → ℕ → Bool → PageFile S → Outcome (PageFile S) (ℕ × PageFile S)
  get_disk_page_table e va create p =
      let t = table_slot e va in
      if (p.envs e).disk_env_pgdir == 0
      then fault
      else if p.disk_tables t == 0
      then (if create
          then (lift_to p (K.kmalloc page_size p.memory) >>= λ r.
              if r.0 == 0
              then ok (0, set_memory p r.1)
              else ok (r.0, new_table t r.0 (set_memory p r.1)))
          else ok (0, p))
      else if leb user_top va
      then fault
      else ok (p.disk_tables t, p)

  -- The common part of pf_add_empty_env_page and pf_add_env_page: the code, the disk frame of the
  -- page, and the state.
  unfoldable pub get_dfn : ℕ → ℕ → PageFile S → Outcome (PageFile S) (ℕ × ℕ × PageFile S)
  get_dfn e va p = assert_then (ltb va kernel_base) (
      get_disk_page_directory e p >>= λ a. get_disk_page_table e va true a.1 >>= λ r.
      if r.0 == 0
      then fault
      else let d = r.1.page_dfns (slot e va) in
        if d == 0 then put_dfn e va r.1 (allocate_disk_frame r.1) else ok (0, d, r.1))

-- May pf_update_env_page add the page?
unfoldable pub may_grow : ℕ → ℕ → Bool
may_grow element va =
    leb user_heap_start va && ltb va user_heap_max
    || leb (ustackbottom element) va && ltb va ustacktop

module _ (D : Ide) where
  abbrev pub Ret : Type 0
  Ret = Outcome (PageFile D.State) (ℕ × PageFile D.State)

  -- The end of adding a page in pf_update_env_page.
  abbrev pub count_added : ℕ → ℕ × PageFile D.State → Ret
  count_added e r =
      let x = r.1.envs e in
      if r.0 == e_no_page_file_space
      then panic
      else ok (0, set_env r.1 e (record x { n_new_page_added = x.n_new_page_added + 1 }))

  -- The end of pf_update_env_page: the permissions `old` are restored but for the modified bit.
  abbrev pub restore : ℕ → ℕ → ℕ → ℕ × PageFile D.State → Ret
  restore e s old r =
      let x = r.1.envs e in
      let kept = bits_or 32 (r.1.memory.entries s / 4096 * 4096) (old % 4096) in
      ok (
        r.0,
        set_env (set_memory r.1 (set_entry r.1.memory s (bits_clear 32 kept perm_modified))) e
            (record x { n_page_out = x.n_page_out + 1 }),
      )

  -- The write of pf_update_env_page, from reading the permissions on. A missing page table is
  -- a null pointer there.
  unfoldable pub write_updated : ℕ → ℕ → ℕ → PageFile D.State → Ret
  write_updated e va dfn p =
      let s = slot (p.envs e).env_page_directory va in
      let old = p.memory.entries s in
      if p.memory.has_table (p.envs e).env_page_directory (pdx va)
      then write_disk_page D dfn (rounddown va page_size)
          (set_memory p (set_entry p.memory s (set_bit perm_present old)))
        >>= restore e s old
      else fault

  abbrev pub count_page_in : ℕ → ℕ × PageFile D.State → Memory → Ret
  count_page_in e r m =
      let x = r.1.envs e in
      ok (r.0, set_env (set_memory r.1 m) e (record x { n_page_in = x.n_page_in + 1 }))

  -- The end of pf_read_env_page, once the disk frame is known.
  unfoldable pub read_dfn : ℕ → ℕ → ℕ → PageFile D.State → Ret
  read_dfn e va dfn p = read_disk_page D dfn va p >>= λ r.
      lift_to r.1
        (pt_set_page_permissions (r.1.envs e).env_page_directory va 0 perm_modified r.1.memory)
      >>= count_page_in e r

  abbrev pub read_found : ℕ → ℕ → ℕ × PageFile D.State → Ret
  read_found e va t =
      if (t.0 == 0) || (t.1.page_dfns (slot e va) == 0)
      then ok (e_page_not_exist_in_pf, t.1)
      else read_dfn e va (t.1.page_dfns (slot e va)) t.1

module _ (D : Ide) (K : KernelHeap) where
  unfoldable pub pf_add_env_page : ℕ → ℕ → ℕ → PageFile D.State → Ret D
  pf_add_env_page e va data_src p = get_dfn K e va p >>= λ r.
      if r.0 == e_no_page_file_space
      then ok (e_no_page_file_space, r.2)
      else write_disk_page D r.1 data_src r.2

  -- pf_add_empty_env_page, where a WorkingSetElement has `element` bytes, and the zero page is at
  -- `ptr_zero_page`.
  unfoldable pub pf_add_empty_env_page : ℕ → ℕ → ℕ → ℕ → Bool → PageFile D.State → Ret D
  pf_add_empty_env_page element ptr_zero_page e va initialize_by_zero p =
      let x = p.envs e in
      let new =
        ltb (ustackbottom element) va && ltb va (ustacktop - x.init_num_stack_pages * page_size) in
      if initialize_by_zero
      then pf_add_env_page e va ptr_zero_page
          (if new then set_env p e (record x { n_new_page_added = x.n_new_page_added + 1 }) else p)
      else get_dfn K e va p >>= λ r. ok (r.0, r.2)

  -- The part of pf_update_env_page that adds a page which the page file lacks.
  unfoldable pub ensure_page : ℕ → ℕ → ℕ → ℕ → PageFile D.State → Ret D
  ensure_page element zero_page e va p = get_disk_page_table K e va false p >>= λ t.
      if (t.0 == 0) || (t.1.page_dfns (slot e va) == 0)
      then (if may_grow element va
          then pf_add_empty_env_page element zero_page e va false t.1 >>= count_added D e
          else panic)
      else ok (0, t.1)

  -- pf_update_env_page; it does not use the frame that it is given.
  unfoldable pub pf_update_env_page : ℕ → ℕ → ℕ → ℕ → PageFile D.State → Ret D
  pf_update_env_page element zero_page e va p = assert_then (ltb va kernel_base) (
      get_disk_page_directory K e p >>= λ a. ensure_page element zero_page e va a.1 >>= λ b.
      get_disk_page_table K e va false b.1 >>= λ t.
      if t.0 == 0 then fault else write_updated D e va (t.1.page_dfns (slot e va)) t.1)

  -- pf_read_env_page at the first address of a page.
  unfoldable pub read_page : ℕ → ℕ → PageFile D.State → Ret D
  read_page e va p =
      if (p.envs e).disk_env_pgdir == 0
      then ok (e_page_not_exist_in_pf, p)
      else get_disk_page_table K e va false p >>= read_found D e va

  unfoldable pub pf_read_env_page : ℕ → ℕ → PageFile D.State → Ret D
  pf_read_env_page e virtual_address p = read_page e (rounddown virtual_address page_size) p

module _ {S : Type 0} (K : KernelHeap) where
  unfoldable pub pf_remove_env_page : ℕ → ℕ → PageFile S → Outcome (PageFile S) (PageFile S)
  pf_remove_env_page e va p =
      if (p.envs e).disk_env_pgdir == 0
      then ok p
      else get_disk_page_table K e va false p >>= λ t.
          if t.0 == 0
          then ok t.1
          else free_disk_frame (t.1.page_dfns (slot e va))
              (record t.1 { page_dfns = update t.1.page_dfns (slot e va) 0 })
