-- ===== src/PageFile/Valid.antt =====
-- kern/disk/pagefile_manager.c: the invariant of the page file.
use fos_operational_system_f.Common.{ℕ, ◌/◌, ◌%◌, ◌<◌, ◌≡◌, ◌≢◌}
use fos_operational_system_f.PageFile.State.{PageFile}
use fos_operational_system_f.PageFile.Partition.{Partition}
use fos_operational_system_f.PageFile.Tables.{user_tables}

-- Every disk frame is free or held once, what is held stands in a table that exists, below the
-- kernel's addresses, and every table has its directory.
pub record FileValid {S : Type 0} (p : PageFile S) : Type 0 where
  pub partition : Partition p.page_dfns p.table_dfns p.disk_free_frame_list
  pub held : (s : ℕ) → p.page_dfns s ≢ 0 → p.disk_tables (s / 1024) ≢ 0
  pub rooted : (t : ℕ) → p.disk_tables t ≢ 0 → (p.envs (t / 1024)).disk_env_pgdir ≢ 0
  pub table_rooted : (t : ℕ) → p.table_dfns t ≢ 0 → (p.envs (t / 1024)).disk_env_tabledir ≢ 0
  pub user : (t : ℕ) → p.disk_tables t ≢ 0 → t % 1024 < user_tables
  pub table_user : (t : ℕ) → p.table_dfns t ≢ 0 → t % 1024 < user_tables

-- The parts of the state that the invariant is about are those of `p`, and no directory is lost.
pub record SameFile {S : Type 0} (p q : PageFile S) : Type 0 where
  pub same_free : q.disk_free_frame_list ≡ p.disk_free_frame_list
  pub same_pages : q.page_dfns ≡ p.page_dfns
  pub same_tables : q.disk_tables ≡ p.disk_tables
  pub same_table_dfns : q.table_dfns ≡ p.table_dfns
  pub same_directory : (e : ℕ) → (q.envs e).disk_env_pgdir ≡ (p.envs e).disk_env_pgdir
  pub same_table_directory : (e : ℕ) → (q.envs e).disk_env_tabledir ≡ (p.envs e).disk_env_tabledir

pub SameFile-FileValid : {S : Type 0} (p q : PageFile S) → SameFile p q → FileValid p → FileValid q
SameFile-FileValid p q s v = record {
  partition = rw (s.same_free, s.same_pages, s.same_table_dfns) v.partition;
  held = rw (s.same_pages, s.same_tables) v.held;
  rooted = rw (s.same_tables) (λ t h. rw (s.same_directory) (v.rooted t h));
  table_rooted = rw (s.same_table_dfns) (λ t h. rw (s.same_table_directory) (v.table_rooted t h));
  user = rw (s.same_tables) v.user;
  table_user = rw (s.same_table_dfns) v.table_user;
}
