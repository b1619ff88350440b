-- ===== src/PageFile/Kept.antt =====
-- kern/disk/pagefile_manager.c: finding and making the places of pages keeps the invariant.
use fos_operational_system_f.Common.{
  ℕ, ◌/◌, ◌%◌, ◌<◌, ◌≡◌, ◌≢◌, refl, subst, true, Bool, List, [], ◌∷◌, arith, ◌==◌, if◌then◌else◌,
  update, ==→ne, ==→eq, lt→ltb,
}
use native.Mathlib.Decide.{ℕ_discrete}
use fos_operational_system_f.Common.Outcome.{Outcome, ok, leaves, panic, fault, ◌>>=◌}
use fos_operational_system_f.Common.Ends.{
  Ends, Ends-ok, Ends-leaves, Ends-panic, Ends-fault, Ends-bind, Ends-if,
}
use fos_operational_system_f.Mmu.{page_size}
use fos_operational_system_f.Frames.State.{Memory, slot}
use fos_operational_system_f.Frames.Map.{KernelHeap}
use fos_operational_system_f.PageFile.State.{
  DiskEnv, PageFile, table_slot, user_top, lift_to, set_memory, set_env,
}
use fos_operational_system_f.PageFile.Pages.{
  free_disk_frame, new_directory, new_table, get_disk_page_directory, get_disk_page_table, put_dfn,
  take_first, get_dfn,
}
use fos_operational_system_f.PageFile.Partition.{
  Partition, take-Partition, clear-Partition, Partition-ext,
}
use fos_operational_system_f.PageFile.Valid.{FileValid, SameFile-FileValid}

-- The state after the place at `s` has given its frame back.
abbrev pub clear_page : {S : Type 0} → ℕ → PageFile S → PageFile S
clear_page s p = record p {
  page_dfns = update p.page_dfns s 0;
  disk_free_frame_list =
      if p.page_dfns s == 0 then p.disk_free_frame_list else p.page_dfns s ∷ p.disk_free_frame_list;
}

module _ {S : Type 0} where
  pub set_memory-FileValid :
      (p : PageFile S) (m : Memory) → FileValid p → FileValid (set_memory p m)
  set_memory-FileValid p m = SameFile-FileValid p (set_memory p m) (record {
    same_free = refl;
    same_pages = refl;
    same_tables = refl;
    same_table_dfns = refl;
    same_directory = λ e. refl;
    same_table_directory = λ e. refl;
  })

  -- Other fields of a process may change.
  pub set_env-FileValid :
      (p : PageFile S) (e : ℕ) (x : DiskEnv)
      → x.disk_env_pgdir ≡ (p.envs e).disk_env_pgdir
      → x.disk_env_tabledir ≡ (p.envs e).disk_env_tabledir
      → FileValid p
      → FileValid (set_env p e x)
  set_env-FileValid p e x a b = SameFile-FileValid p (set_env p e x) (record {
    same_free = refl;
    same_pages = refl;
    same_tables = refl;
    same_table_dfns = refl;
    same_directory = λ f. ground (arith, a);
    same_table_directory = λ f. ground (arith, b);
  })

  pub clear_page-FileValid : (s : ℕ) (p : PageFile S) → FileValid p → FileValid (clear_page s p)
  clear_page-FileValid s p v = record {
    partition = clear-Partition p.page_dfns p.table_dfns s p.disk_free_frame_list v.partition;
    held = λ t h. v.held t (ground (arith, h));
    rooted = v.rooted;
    table_rooted = v.table_rooted;
    user = v.user;
    table_user = v.table_user;
  }

  -- Giving a place's frame back never corrupts the free list.
  pub free_page_lem :
      (s : ℕ) (p : PageFile S)
      → FileValid p
      → free_disk_frame (p.page_dfns s) (record p { page_dfns = update p.page_dfns s 0 })
        ≡ ok (clear_page s p)
  unfolding free_disk_frame
  free_page_lem s p v = ground (arith, v.partition.page_real s, v.partition.page_taken s)

  pub lift_to-FileValid :
      {A : Type 0} (p : PageFile S) (o : Outcome Memory A)
      → FileValid p
      → Ends FileValid (λ a. Unit {0}) (lift_to p o)
  lift_to-FileValid p (ok a) v = Ends-ok a tt
  lift_to-FileValid p (leaves e m) v = Ends-leaves e _ (set_memory-FileValid p m v)
  lift_to-FileValid p panic v = Ends-panic
  lift_to-FileValid p fault v = Ends-fault

  pub new_directory-FileValid :
      (e a : ℕ) (p : PageFile S)
      → FileValid p
      → (p.envs e).disk_env_pgdir ≡ 0
      → FileValid (new_directory e a p)
  unfolding new_directory
  new_directory-FileValid e a p v z = record {
    partition = v.partition;
    held = λ s h. ground (arith, v.held s h, v.rooted (s / 1024), z);
    rooted = λ t h. ground (arith, v.rooted t, h);
    table_rooted = λ t h. ground (arith, v.table_rooted t h);
    user = λ t h. ground (arith, v.user t, h);
    table_user = v.table_user;
  }

  pub new_table-FileValid :
      (t a : ℕ) (p : PageFile S)
      → FileValid p
      → p.disk_tables t ≡ 0
      → a ≢ 0
      → (p.envs (t / 1024)).disk_env_pgdir ≢ 0
      → t % 1024 < 955
      → FileValid (new_table t a p)
  unfolding new_table
  new_table-FileValid t a p v z n root user = record {
    partition =
        Partition-ext p.page_dfns (new_table t a p).page_dfns p.table_dfns p.disk_free_frame_list
          (λ s. ground (arith, v.held s, z)) v.partition;
    held = λ s h. ground (arith, v.held s, h, n);
    rooted = λ u h. ground (arith, v.rooted u, h, root);
    table_rooted = v.table_rooted;
    user = λ u h. ground (arith, v.user u, h, user);
    table_user = v.table_user;
  }

  -- A page that has a table and no disk frame takes the first free one.
  pub put_dfn-FileValid :
      (e va : ℕ) (p : PageFile S) (l : List ℕ)
      → Partition p.page_dfns p.table_dfns l
      → FileValid p
      → p.page_dfns (slot e va) ≡ 0
      → p.disk_tables (table_slot e va) ≢ 0
      → Ends FileValid (λ r. FileValid r.2) (put_dfn e va p (take_first p l))
  put_dfn-FileValid e va p [] w v z n = Ends-ok _ v
  put_dfn-FileValid e va p (d ∷ l) w v z n = Ends-ok _ (record {
    partition = take-Partition p.page_dfns p.table_dfns d (slot e va) l w z;
    held = λ s h. elim (ℕ_discrete (slot e va) s) [
      | yes q ↦ subst (λ t. p.disk_tables t ≢ 0) {x = table_slot e va} (omega (arith, q)) n
      | no k ↦ v.held s (ground (arith, h, k))
    ];
    rooted = v.rooted;
    table_rooted = v.table_rooted;
    user = v.user;
    table_user = v.table_user;
  })

abbrev pub ValidNext : {S : Type 0} → ℕ × PageFile S → Type 0
ValidNext r = FileValid r.1

-- The table that the code gets is there.
abbrev pub ValidTable : {S : Type 0} → ℕ → ℕ → ℕ × PageFile S → Type 0
ValidTable e va r = FileValid r.1 × (r.0 ≢ 0 → r.1.disk_tables (table_slot e va) ≢ 0)

module _ {S : Type 0} (K : KernelHeap) where
  pub get_disk_page_directory-FileValid :
      (e : ℕ) (p : PageFile S)
      → FileValid p
      → Ends FileValid ValidNext (get_disk_page_directory K e p)
  unfolding get_disk_page_directory
  get_disk_page_directory-FileValid e p v =
      Ends-if _ _ _
        (λ z.
          Ends-bind (λ a. Unit {0}) _ _ (lift_to-FileValid p (K.kmalloc page_size p.memory) v)
            λ r _.
              Ends-if (r.0 == 0) _ _ (λ _. Ends-ok _ (set_memory-FileValid p r.1 v))
                λ _. Ends-ok _ (
                  new_directory-FileValid e r.0 (set_memory p r.1) (set_memory-FileValid p r.1 v)
                    (==→eq _ 0 z)))
        (λ _. Ends-ok _ v)

  -- Making the table.
  make_table-FileValid :
      (e va : ℕ) (p : PageFile S)
      → FileValid p
      → va < user_top
      → (p.envs e).disk_env_pgdir ≢ 0
      → p.disk_tables (table_slot e va) ≡ 0
      → Ends FileValid (ValidTable e va) (
          lift_to p (K.kmalloc page_size p.memory) >>= λ r.
          if r.0 == 0
          then ok (0, set_memory p r.1)
          else ok (r.0, new_table (table_slot e va) r.0 (set_memory p r.1)))
  unfolding new_table
  make_table-FileValid e va p v lt root z =
      Ends-bind (λ a. Unit {0}) _ _ (lift_to-FileValid p (K.kmalloc page_size p.memory) v)
        λ r _.
          let w = set_memory-FileValid p r.1 v in
          let at : table_slot e va / 1024 ≡ e = omega (arith, lt) in
          Ends-if _ _ _ (λ _. Ends-ok _ (w, λ h. absurd (h refl)))
            λ a. Ends-ok _ (
              new_table-FileValid (table_slot e va) r.0 (set_memory p r.1) w z (==→ne r.0 0 a)
                  (rw at root) (omega (arith, lt)),
              λ h. ground (arith, h),
            )

  pub get_disk_page_table-FileValid :
      (e va : ℕ) (create : Bool) (p : PageFile S)
      → FileValid p
      → va < user_top
      → Ends FileValid (ValidTable e va) (get_disk_page_table K e va create p)
  unfolding get_disk_page_table
  get_disk_page_table-FileValid e va create p v lt =
      Ends-if _ _ _ (λ _. Ends-fault)
        λ root.
          Ends-if _ _ _
            (λ z.
              Ends-if _ _ _ (λ _. make_table-FileValid e va p v lt (==→ne _ 0 root) (==→eq _ 0 z))
                (λ _. Ends-ok _ (v, λ h. absurd (h refl))))
            (λ _. Ends-if _ _ _ (λ _. Ends-fault) (λ _. Ends-ok _ (v, λ k. k)))

  pub get_dfn-FileValid :
      (e va : ℕ) (p : PageFile S)
      → FileValid p
      → va < user_top
      → Ends FileValid (λ r. FileValid r.2) (get_dfn K e va p)
  unfolding get_dfn
  get_dfn-FileValid e va p v lt = rw (lt→ltb va 0xF0000000 (omega (arith, lt))) (
      Ends-bind ValidNext _ _ (get_disk_page_directory-FileValid e p v) λ a va'.
        Ends-bind (ValidTable e va) _ _ (get_disk_page_table-FileValid e va true a.1 va' lt)
          λ r (w, there).
            Ends-if _ _ _ (λ _. Ends-fault)
              λ n.
                Ends-if _ _ _
                  (λ z.
                    put_dfn-FileValid e va r.1 r.1.disk_free_frame_list w.partition w (==→eq _ 0 z)
                      (there (==→ne _ 0 n)))
                  (λ _. Ends-ok _ w))
