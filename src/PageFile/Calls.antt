-- ===== src/PageFile/Calls.antt =====
-- kern/disk/pagefile_manager.c: every call of the page file keeps its invariant.
use fos_operational_system_f.Common.{
  ℕ, ◌-◌, ◌*◌, ◌%◌, ◌<◌, refl, inl, inr, Bool, true, false, ◌&&◌, ◌||◌, arith, ◌==◌, ltb, update,
  Bool-cases, lt→ltb,
}
use fos_operational_system_f.Common.Ends.{Ends, Ends-bind, Ends-if, Ends-ok, Ends-panic, Ends-fault}
use fos_operational_system_f.Mmu.{page_size, rounddown, has_bit, perm_writeable}
use fos_operational_system_f.Frames.State.{Memory, slot, pdx}
use fos_operational_system_f.Frames.Map.{KernelHeap}
use fos_operational_system_f.Frames.UserMem.{ustackbottom, ustacktop}
use fos_operational_system_f.PageFile.State.{
  Ide, PageFile, user_top, is_mapped, read_disk_page, write_disk_page, after_write,
  e_no_page_file_space, e_page_not_exist_in_pf,
}
use fos_operational_system_f.PageFile.Pages.{
  free_disk_frame, pf_add_env_page, pf_add_empty_env_page, may_grow, count_added, ensure_page,
  write_updated, read_page, pf_update_env_page, read_dfn, count_page_in, read_found,
  pf_read_env_page, pf_remove_env_page,
}
use fos_operational_system_f.PageFile.Valid.{FileValid, SameFile-FileValid}
use fos_operational_system_f.PageFile.Kept.{
  ValidNext, ValidTable, set_memory-FileValid, set_env-FileValid, lift_to-FileValid,
  get_disk_page_directory-FileValid, get_disk_page_table-FileValid, get_dfn-FileValid,
  clear_page-FileValid, free_page_lem,
}

-- The disk and the memory have no part in the invariant.
pub set_disk-FileValid :
    {S : Type 0} (p : PageFile S) (m : Memory) (b : ℕ → ℕ) (d : S)
    → FileValid p
    → FileValid (record p { memory = m; bytes = b; disk = d })
set_disk-FileValid p m b d =
    SameFile-FileValid p (record p { memory = m; bytes = b; disk = d })
      (record {
        same_free = refl;
        same_pages = refl;
        same_tables = refl;
        same_table_dfns = refl;
        same_directory = λ e. refl;
        same_table_directory = λ e. refl;
      })

module _ (D : Ide) where
  pub read_disk_page-FileValid :
      (dfn va : ℕ) (p : PageFile D.State)
      → FileValid p
      → Ends FileValid ValidNext (read_disk_page D dfn va p)
  unfolding read_disk_page
  read_disk_page-FileValid dfn va p v =
      Ends-if (is_mapped va p && has_bit perm_writeable (p.memory.entries (slot p.cr3 va))) _ _
        (λ _. Ends-ok _ (set_disk-FileValid p _ _ _ v)) (λ _. Ends-fault)

  after_write-FileValid :
      (va : ℕ) (p : PageFile D.State) (r : ℕ × D.State)
      → FileValid p
      → Ends FileValid ValidNext (after_write D va p r)
  after_write-FileValid va p r v =
      Ends-if (r.0 == 0) _ _ (λ _. Ends-ok _ (set_disk-FileValid p _ p.bytes r.1 v))
        (λ _. Ends-panic)

  pub write_disk_page-FileValid :
      (dfn va : ℕ) (p : PageFile D.State)
      → FileValid p
      → Ends FileValid ValidNext (write_disk_page D dfn va p)
  unfolding write_disk_page
  write_disk_page-FileValid dfn va p v =
      Ends-if (is_mapped va p) _ _ (λ _. after_write-FileValid va p _ v) (λ _. Ends-fault)

  count_added-FileValid :
      (e : ℕ) (r : ℕ × PageFile D.State)
      → ValidNext r
      → Ends FileValid ValidNext (count_added D e r)
  count_added-FileValid e r v =
      Ends-if (r.0 == e_no_page_file_space) _ _ (λ _. Ends-panic)
        (λ _. Ends-ok _ (set_env-FileValid r.1 e _ refl refl v))

  write_updated-FileValid :
      (e va dfn : ℕ) (p : PageFile D.State)
      → FileValid p
      → Ends FileValid ValidNext (write_updated D e va dfn p)
  unfolding write_updated
  write_updated-FileValid e va dfn p v =
      Ends-if (p.memory.has_table (p.envs e).env_page_directory (pdx va)) _ _
        (λ _.
          Ends-bind ValidNext _ _
            (write_disk_page-FileValid dfn (rounddown va page_size) _ (set_memory-FileValid p _ v))
            λ r w. Ends-ok _ (set_env-FileValid _ e _ refl refl (set_memory-FileValid r.1 _ w)))
        (λ _. Ends-fault)

  read_dfn-FileValid :
      (e va dfn : ℕ) (p : PageFile D.State)
      → FileValid p
      → Ends FileValid ValidNext (read_dfn D e va dfn p)
  unfolding read_dfn
  read_dfn-FileValid e va dfn p v =
      Ends-bind ValidNext _ _ (read_disk_page-FileValid dfn va p v) λ r w.
        Ends-bind (λ m. Unit {0}) _ (count_page_in D e r) (lift_to-FileValid r.1 _ w)
          λ m _. Ends-ok _ (set_env-FileValid _ e _ refl refl (set_memory-FileValid r.1 m w))

module _ (D : Ide) (K : KernelHeap) where
  pub pf_add_env_page-FileValid :
      (e va src : ℕ) (p : PageFile D.State)
      → FileValid p
      → va < user_top
      → Ends FileValid ValidNext (pf_add_env_page D K e va src p)
  unfolding pf_add_env_page
  pf_add_env_page-FileValid e va src p v lt =
      Ends-bind (λ r. FileValid r.2) _ _ (get_dfn-FileValid K e va p v lt)
        λ r w.
          Ends-if (r.0 == e_no_page_file_space) _ _ (λ _. Ends-ok _ w)
            (λ _. write_disk_page-FileValid D r.1 src r.2 w)

  pub pf_add_empty_env_page-FileValid :
      (element zero_page e va : ℕ) (by_zero : Bool) (p : PageFile D.State)
      → FileValid p
      → va < user_top
      → Ends FileValid ValidNext (pf_add_empty_env_page D K element zero_page e va by_zero p)
  unfolding pf_add_empty_env_page
  pf_add_empty_env_page-FileValid element zero_page e va true p v lt =
      elim (Bool-cases (
        ltb (ustackbottom element) va
        && ltb va (ustacktop - (p.envs e).init_num_stack_pages * page_size))) [
          | inl h ↦
              rw h (
                pf_add_env_page-FileValid e va zero_page _ (set_env-FileValid p e _ refl refl v) lt)
          | inr h ↦ rw h (pf_add_env_page-FileValid e va zero_page p v lt)
        ]
  pf_add_empty_env_page-FileValid element zero_page e va false p v lt =
      Ends-bind (λ r. FileValid r.2) _ _ (get_dfn-FileValid K e va p v lt) λ r w. Ends-ok _ w

  ensure_page-FileValid :
      (element zero_page e va : ℕ) (p : PageFile D.State)
      → FileValid p
      → va < user_top
      → Ends FileValid ValidNext (ensure_page D K element zero_page e va p)
  unfolding ensure_page
  ensure_page-FileValid element zero_page e va p v lt =
      Ends-bind (ValidTable e va) _ _ (get_disk_page_table-FileValid K e va false p v lt) λ t w.
        Ends-if ((t.0 == 0) || (t.1.page_dfns (slot e va) == 0)) _ _
          (λ _.
            Ends-if (may_grow element va) _ _
              (λ _.
                Ends-bind ValidNext _ (count_added D e)
                  (pf_add_empty_env_page-FileValid element zero_page e va false t.1 w.0 lt)
                  (count_added-FileValid D e))
              (λ _. Ends-panic))
          (λ _. Ends-ok _ w.0)

  pub pf_update_env_page-FileValid :
      (element zero_page e va : ℕ) (p : PageFile D.State)
      → FileValid p
      → va < user_top
      → Ends FileValid ValidNext (pf_update_env_page D K element zero_page e va p)
  unfolding pf_update_env_page
  pf_update_env_page-FileValid element zero_page e va p v lt =
      rw (lt→ltb va 0xF0000000 (omega (arith, lt))) (
        Ends-bind ValidNext _ _ (get_disk_page_directory-FileValid K e p v) λ a wa.
          Ends-bind ValidNext _ _ (ensure_page-FileValid element zero_page e va a.1 wa lt) λ b wb.
            Ends-bind (ValidTable e va) _ _ (get_disk_page_table-FileValid K e va false b.1 wb lt)
              λ t wt.
                Ends-if _ _ _ (λ _. Ends-fault)
                  (λ _. write_updated-FileValid D e va (t.1.page_dfns (slot e va)) t.1 wt.0))

  read_page-FileValid :
      (e va : ℕ) (p : PageFile D.State)
      → FileValid p
      → va < user_top
      → Ends FileValid ValidNext (read_page D K e va p)
  unfolding read_page
  read_page-FileValid e va p v lt =
      Ends-if ((p.envs e).disk_env_pgdir == 0) _ _ (λ _. Ends-ok (e_page_not_exist_in_pf, p) v)
        λ _.
          Ends-bind (ValidTable e va) _ (read_found D e va)
            (get_disk_page_table-FileValid K e va false p v lt)
            λ t w.
              Ends-if ((t.0 == 0) || (t.1.page_dfns (slot e va) == 0)) _ _
                (λ _. Ends-ok (e_page_not_exist_in_pf, t.1) w.0)
                (λ _. read_dfn-FileValid D e va (t.1.page_dfns (slot e va)) t.1 w.0)

  pub pf_read_env_page-FileValid :
      (e va : ℕ) (p : PageFile D.State)
      → FileValid p
      → va < user_top
      → Ends FileValid ValidNext (pf_read_env_page D K e va p)
  unfolding pf_read_env_page rounddown
  pf_read_env_page-FileValid e va p v lt =
      read_page-FileValid e (va - va % page_size) p v (omega (arith, lt))

pub pf_remove_env_page-FileValid :
    {S : Type 0} (K : KernelHeap) (e va : ℕ) (p : PageFile S)
    → FileValid p
    → va < user_top
    → Ends FileValid FileValid (pf_remove_env_page K e va p)
unfolding pf_remove_env_page
pf_remove_env_page-FileValid K e va p v lt =
    Ends-if _ _ _ (λ _. Ends-ok _ v)
      λ _.
        Ends-bind (ValidTable e va) _ _ (get_disk_page_table-FileValid K e va false p v lt) λ t w.
          Ends-if (t.0 == 0) _
            (free_disk_frame (t.1.page_dfns (slot e va))
              (record t.1 { page_dfns = update t.1.page_dfns (slot e va) 0 }))
            (λ _. Ends-ok _ w.0)
            λ _.
              rw (free_page_lem (slot e va) t.1 w.0)
                (Ends-ok _ (clear_page-FileValid (slot e va) t.1 w.0))
