-- ===== src/PageFile/Freed.antt =====
-- kern/disk/pagefile_manager.c: the loops that give disk frames back give back all of them.
use fos_operational_system_f.Common.{
  ℕ, zero, suc, ◌+◌, ◌*◌, ◌/◌, ◌≡◌, ◌≢◌, refl, ◌∙◌, inl, Bool, inr, true, ◌&&◌, arith, ◌==◌, ltb,
  leb, if◌then◌else◌, update, length, Bool-cases, ==→ne,
}
use fos_operational_system_f.Common.Outcome.{ok}
use fos_operational_system_f.Common.Ends.{Returns, Returns-bind}
use fos_operational_system_f.Frames.State.{Memory}
use fos_operational_system_f.Frames.Map.{KernelHeap}
use fos_operational_system_f.PageFile.State.{PageFile}
use fos_operational_system_f.PageFile.Valid.{FileValid}
use fos_operational_system_f.PageFile.Kept.{clear_page, clear_page-FileValid, free_page_lem}
use fos_operational_system_f.PageFile.Tables.{
  free_entries, count_entries, free_table, free_tables, count_tables,
}

abbrev pub within : ℕ → ℕ → ℕ → Bool
within s left u = leb s u && ltb u (s + left)

-- `q` is `p` after the places from `s` on have given their frames back.
pub record EntriesFreed {S : Type 0} (s left : ℕ) (p q : PageFile S) : Type 0 where
  pub valid : FileValid q
  pub entries : (u : ℕ) → q.page_dfns u ≡ (if within s left u then 0 else p.page_dfns u)
  pub counted :
      length q.disk_free_frame_list ≡ length p.disk_free_frame_list + count_entries s left p
  pub tables_kept : q.disk_tables ≡ p.disk_tables
  pub envs_kept : q.envs ≡ p.envs
  pub table_dfns_kept : q.table_dfns ≡ p.table_dfns

module _ {S : Type 0} where
  count_entries_ext :
      (s left : ℕ) (p q : PageFile S)
      → ((u : ℕ) → within s left u ≡ true → q.page_dfns u ≡ p.page_dfns u)
      → count_entries s left q ≡ count_entries s left p
  unfolding count_entries
  count_entries_ext s zero p q h = refl
  count_entries_ext s (suc left) p q h =
      let rest = count_entries_ext (s + 1) left p q (λ u i. h u (ground (arith, i))) in
      ground (arith, rest, h s (ground arith))

  pub free_entries_lem :
      (s left : ℕ) (p : PageFile S)
      → FileValid p
      → Returns (EntriesFreed s left p) (free_entries s left p)
  unfolding free_entries count_entries
  free_entries_lem s zero p v = (
    p,
    refl,
    record {
      valid = v;
      entries = λ u. ground arith;
      counted = omega arith;
      tables_kept = refl;
      envs_kept = refl;
      table_dfns_kept = refl;
    },
  )
  free_entries_lem s (suc left) p v = rw (free_page_lem s p v) (
      let (q, e, f) = free_entries_lem (s + 1) left (clear_page s p) (clear_page-FileValid s p v) in
      (
        q,
        e,
        record {
          valid = f.valid;
          entries = λ u. ground (arith, f.entries u);
          counted =
              let same =
                count_entries_ext (s + 1) left p (clear_page s p) (λ u i. ground (arith, i)) in
              ground (arith, f.counted, same);
          tables_kept = f.tables_kept;
          envs_kept = f.envs_kept;
          table_dfns_kept = f.table_dfns_kept;
        },
      ))

-- `q` is `p` after the tables from `t` on have given back their frames and themselves.
pub record TablesFreed {S : Type 0} (t left : ℕ) (p q : PageFile S) : Type 0 where
  pub valid : FileValid q
  pub gone : (u : ℕ) → q.disk_tables u ≡ (if within t left u then 0 else p.disk_tables u)
  pub entries : (s : ℕ) → q.page_dfns s ≡ (if within t left (s / 1024) then 0 else p.page_dfns s)
  pub counted :
      length q.disk_free_frame_list ≡ length p.disk_free_frame_list + count_tables t left p
  pub envs_kept : q.envs ≡ p.envs
  pub table_dfns_kept : q.table_dfns ≡ p.table_dfns

count_tables_ext :
    {S : Type 0} (t left : ℕ) (p q : PageFile S)
    → ((u : ℕ) → within t left u ≡ true → q.disk_tables u ≡ p.disk_tables u)
    → ((s : ℕ) → within t left (s / 1024) ≡ true → q.page_dfns s ≡ p.page_dfns s)
    → count_tables t left q ≡ count_tables t left p
unfolding count_tables
count_tables_ext t zero p q h k = refl
count_tables_ext t (suc left) p q h k =
    let rest =
      count_tables_ext (t + 1) left p q (λ u i. h u (ground (arith, i)))
        (λ s i. k s (ground (arith, i))) in
    let one = count_entries_ext (t * 1024) 1024 p q (λ s i. k s (ground (arith, i))) in
    ground (arith, rest, one, h t (ground arith))

-- A table without entries may go.
free_empty_table :
    {S : Type 0} (m : Memory) (t : ℕ) (q : PageFile S)
    → FileValid q
    → ((s : ℕ) → s / 1024 ≡ t → q.page_dfns s ≡ 0)
    → FileValid (record q { memory = m; disk_tables = update q.disk_tables t 0 })
free_empty_table m t q v empty = record {
  partition = v.partition;
  held = λ s h. ground (arith, v.held s h, empty s, h);
  rooted = λ u h. v.rooted u (ground (arith, h));
  table_rooted = v.table_rooted;
  user = λ u h. v.user u (ground (arith, h));
  table_user = v.table_user;
}

module _ {S : Type 0} (K : KernelHeap) where
  -- The heap takes back the tables from `t` on, whose addresses kmalloc has given.
  abbrev pub TakesBack : ℕ → ℕ → PageFile S → Type 0
  TakesBack t left p =
      (u : ℕ)
      → within t left u ≡ true
      → p.disk_tables u ≢ 0
      → (m : Memory) → (n : Memory) × (K.kfree (p.disk_tables u) m ≡ ok n)

  free_table_lem :
      (t : ℕ) (p : PageFile S)
      → FileValid p
      → TakesBack t 1 p
      → Returns (TablesFreed t 1 p) (free_table K t p)
  unfolding free_table count_tables
  free_table_lem t p v back = elim (Bool-cases (p.disk_tables t == 0)) [
    | inl z ↦ rw z (
      p,
      refl,
      record {
        valid = v;
        gone = λ u. ground (arith, z);
        entries = λ s. ground (arith, v.held s, z);
        counted = ground (arith, z);
        envs_kept = refl;
        table_dfns_kept = refl;
      },
    )
    | inr n ↦ rw n (
        Returns-bind (EntriesFreed (t * 1024) 1024 p) (TablesFreed t 1 p) _ _
          (free_entries_lem (t * 1024) 1024 p v)
          λ q f.
            let (m, e) = back t (ground arith) (==→ne _ 0 n) q.memory in
            rw e (
              record q { memory = m; disk_tables = update q.disk_tables t 0 },
              refl,
              record {
                valid = free_empty_table m t q f.valid (λ s h. ground (arith, f.entries s, h));
                gone = λ u. ground (arith, f.tables_kept);
                entries = λ s. ground (arith, f.entries s);
                counted = ground (arith, n, f.counted);
                envs_kept = f.envs_kept;
                table_dfns_kept = f.table_dfns_kept;
              },
            ))
  ]

  pub free_tables_lem :
      (t left : ℕ) (p : PageFile S)
      → FileValid p
      → TakesBack t left p
      → Returns (TablesFreed t left p) (free_tables K t left p)
  unfolding free_tables count_tables
  free_tables_lem t zero p v back = (
    p,
    refl,
    record {
      valid = v;
      gone = λ u. ground arith;
      entries = λ s. ground arith;
      counted = omega arith;
      envs_kept = refl;
      table_dfns_kept = refl;
    },
  )
  free_tables_lem t (suc left) p v back =
      Returns-bind (TablesFreed t 1 p) (TablesFreed t (suc left) p) _ _
        (free_table_lem t p v (λ u i. back u (ground (arith, i))))
        λ q f.
          let (r, e, g) = free_tables_lem (t + 1) left q f.valid (λ u i n m.
            let same : q.disk_tables u ≡ p.disk_tables u = ground (arith, f.gone u, i) in
            rw same (back u (ground (arith, i)) (λ z. n (same ∙ z)) m)) in
          (
            r,
            e,
            record {
              valid = g.valid;
              gone = λ u. ground (arith, g.gone u, f.gone u);
              entries = λ s. ground (arith, g.entries s, f.entries s);
              counted =
                  let same =
                    count_tables_ext (t + 1) left p q (λ u i. ground (arith, f.gone u, i))
                      (λ s i. ground (arith, f.entries s, i)) in
                  ground (arith, g.counted, f.counted, same);
              envs_kept = g.envs_kept ∙ f.envs_kept;
              table_dfns_kept = g.table_dfns_kept ∙ f.table_dfns_kept;
            },
          )
