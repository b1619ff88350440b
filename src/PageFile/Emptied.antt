-- ===== src/PageFile/Emptied.antt =====
-- kern/disk/pagefile_manager.c: after pf_free_env a process has nothing in the page file.
use fos_operational_system_f.Common.{
  ℕ, zero, suc, ◌+◌, ◌*◌, ◌/◌, ◌≡◌, refl, true, ◌∷◌, arith, ◌==◌, if◌then◌else◌, update, length,
}
use fos_operational_system_f.Common.Outcome.{ok}
use fos_operational_system_f.Common.Ends.{Returns}
use fos_operational_system_f.Frames.State.{Memory}
use fos_operational_system_f.Frames.Map.{KernelHeap}
use fos_operational_system_f.PageFile.State.{PageFile}
use fos_operational_system_f.PageFile.Pages.{free_disk_frame}
use fos_operational_system_f.PageFile.Partition.{Partition-swap, clear-Partition}
use fos_operational_system_f.PageFile.Valid.{FileValid}
use fos_operational_system_f.PageFile.Freed.{within, TakesBack}
use fos_operational_system_f.PageFile.Tables.{
  user_tables, free_table_entries, count_tables, pf_calculate_free_frames,
}

-- How many of the `left` places from `t` on hold a disk frame.
unfoldable pub count_held : (ℕ → ℕ) → ℕ → ℕ → ℕ
count_held f t zero = 0
count_held f t (suc left) =
    if f t == 0 then count_held f (t + 1) left else suc (count_held f (t + 1) left)

count_held_ext :
    (f g : ℕ → ℕ) (t left : ℕ)
    → ((u : ℕ) → within t left u ≡ true → g u ≡ f u)
    → count_held g t left ≡ count_held f t left
unfolding count_held
count_held_ext f g t zero h = refl
count_held_ext f g t (suc left) h =
    let rest = count_held_ext f g (t + 1) left (λ u i. h u (ground (arith, i))) in
    ground (arith, rest, h t (ground arith))

abbrev pub clear_table_dfn : {S : Type 0} → ℕ → PageFile S → PageFile S
clear_table_dfn t p = record p {
  table_dfns = update p.table_dfns t 0;
  disk_free_frame_list =
      if p.table_dfns t == 0
      then p.disk_free_frame_list
      else p.table_dfns t ∷ p.disk_free_frame_list;
}

-- `q` is `p` after the places of page tables from `t` on have given their frames back.
pub record TableEntriesFreed {S : Type 0} (t left : ℕ) (p q : PageFile S) : Type 0 where
  pub valid : FileValid q
  pub entries : (u : ℕ) → q.table_dfns u ≡ (if within t left u then 0 else p.table_dfns u)
  pub counted :
      length q.disk_free_frame_list ≡ length p.disk_free_frame_list + count_held p.table_dfns t left
  pub tables_kept : q.disk_tables ≡ p.disk_tables
  pub envs_kept : q.envs ≡ p.envs
  pub pages_kept : q.page_dfns ≡ p.page_dfns

module _ {S : Type 0} where
  pub clear_table_dfn-FileValid :
      (t : ℕ) (p : PageFile S) → FileValid p → FileValid (clear_table_dfn t p)
  clear_table_dfn-FileValid t p v = record {
    partition =
        let w = Partition-swap p.page_dfns p.table_dfns p.disk_free_frame_list v.partition in
        Partition-swap _ _ _ (clear-Partition p.table_dfns p.page_dfns t p.disk_free_frame_list w);
    held = v.held;
    rooted = v.rooted;
    table_rooted = λ u h. v.table_rooted u (ground (arith, h));
    user = v.user;
    table_user = λ u h. v.table_user u (ground (arith, h));
  }

  pub free_table_dfn_lem :
      (t : ℕ) (p : PageFile S)
      → FileValid p
      → free_disk_frame (p.table_dfns t) (record p { table_dfns = update p.table_dfns t 0 })
        ≡ ok (clear_table_dfn t p)
  unfolding free_disk_frame
  free_table_dfn_lem t p v = ground (arith, v.partition.table_real t, v.partition.table_taken t)

  pub free_table_entries_lem :
      (t left : ℕ) (p : PageFile S)
      → FileValid p
      → Returns (TableEntriesFreed t left p) (free_table_entries t left p)
  unfolding free_table_entries count_held
  free_table_entries_lem t zero p v = (
    p,
    refl,
    record {
      valid = v;
      entries = λ u. ground arith;
      counted = omega arith;
      tables_kept = refl;
      envs_kept = refl;
      pages_kept = refl;
    },
  )
  free_table_entries_lem t (suc left) p v = rw (free_table_dfn_lem t p v) (
      let (q, e, f) =
        free_table_entries_lem (t + 1) left (clear_table_dfn t p)
          (clear_table_dfn-FileValid t p v) in
      (
        q,
        e,
        record {
          valid = f.valid;
          entries = λ u. ground (arith, f.entries u);
          counted =
              let same =
                count_held_ext p.table_dfns (clear_table_dfn t p).table_dfns (t + 1) left
                  (λ u i. ground (arith, i)) in
              ground (arith, f.counted, same);
          tables_kept = f.tables_kept;
          envs_kept = f.envs_kept;
          pages_kept = f.pages_kept;
        },
      ))

-- The process `e` of `p` has nothing in the page file `q`; the others have what they had.
pub record EnvFreed {S : Type 0} (e : ℕ) (p q : PageFile S) : Type 0 where
  pub valid : FileValid q
  pub no_directory : (q.envs e).disk_env_pgdir ≡ 0
  pub no_table_directory : (q.envs e).disk_env_tabledir ≡ 0
  pub pages : (s : ℕ) → q.page_dfns s ≡ (if s / 0x100000 == e then 0 else p.page_dfns s)
  pub tables : (t : ℕ) → q.table_dfns t ≡ (if t / 1024 == e then 0 else p.table_dfns t)
  pub counted :
      pf_calculate_free_frames q
      ≡ pf_calculate_free_frames p
        + count_tables (e * 1024) user_tables p
        + count_held p.table_dfns (e * 1024) user_tables

-- What the end of pf_free_env leaves of `p`.
record DirectoryFreed {S : Type 0} (e : ℕ) (p q : PageFile S) : Type 0 where
  valid : FileValid q
  no_table_directory : (q.envs e).disk_env_tabledir ≡ 0
  directory_kept : (q.envs e).disk_env_pgdir ≡ (p.envs e).disk_env_pgdir
  pages_kept : q.page_dfns ≡ p.page_dfns
  tables : (t : ℕ) → q.table_dfns t ≡ (if t / 1024 == e then 0 else p.table_dfns t)
  counted :
      length q.disk_free_frame_list
      ≡ length p.disk_free_frame_list + count_held p.table_dfns (e * 1024) user_tables

module _ {S : Type 0} (K : KernelHeap) where
  -- The addresses that pf_free_env hands to the heap are ones that kmalloc has given.
  pub record HeapTakes (e : ℕ) (p : PageFile S) : Type 0 where
    pub takes_tables : TakesBack K (e * 1024) user_tables p
    pub takes_directory : (m : Memory) → (n : Memory) × (K.kfree (p.envs e).disk_env_pgdir m ≡ ok n)
    pub takes_table_directory :
        (m : Memory) → (n : Memory) × (K.kfree (p.envs e).disk_env_tabledir m ≡ ok n)
