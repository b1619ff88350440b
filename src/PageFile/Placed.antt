-- ===== src/PageFile/Placed.antt =====
-- kern/disk/pagefile_manager.c: a page gets its disk frame, over a heap that has memory left.
use fos_operational_system_f.Common.{
  ℕ, suc, ◌/◌, ◌<◌, ◌≡◌, ◌≢◌, ◌⊎◌, refl, sym, ◌∙◌, inl, inr, true, false, List, [], ◌∷◌, arith,
  ◌==◌, ltb, leb, update, contains, ==→ne, ==→eq, ne→==, Bool-cases,
}
use fos_operational_system_f.Common.Outcome.{ok}
use fos_operational_system_f.Common.Ends.{Returns}
use fos_operational_system_f.Mmu.{page_size, has_bit, perm_present}
use fos_operational_system_f.Frames.State.{Memory, slot, pdx}
use fos_operational_system_f.Frames.Map.{KernelHeap}
use fos_operational_system_f.PageFile.State.{
  PageFile, table_slot, user_top, set_memory, is_mapped, e_no_page_file_space,
}
use fos_operational_system_f.PageFile.Pages.{
  take_first, new_directory, new_table, get_disk_page_directory, get_disk_page_table, put_dfn,
  get_dfn,
}
use fos_operational_system_f.PageFile.Partition.{Partition}
use fos_operational_system_f.PageFile.Valid.{FileValid}
use fos_operational_system_f.PageFile.Kept.{
  set_memory-FileValid, new_directory-FileValid, new_table-FileValid, put_dfn-FileValid,
}

-- What is known of a kernel heap as long as it has room: `Room n m` says that with the memory `m` it
-- has room for `n` more blocks of `size` bytes. kmalloc then gives a block, and leaves the pages
-- that are present alone. Where it has no room, nothing is said of it.
pub record GivesPages (K : KernelHeap) (size : ℕ) : Type 1 where
  pub Room : ℕ → Memory → Type 0
  pub given : Memory → ℕ × Memory
  pub returns : (n : ℕ) (m : Memory) → Room (suc n) m → K.kmalloc size m ≡ ok (given m)
  pub not_null : (n : ℕ) (m : Memory) → Room (suc n) m → (given m).0 ≢ 0
  pub left : (n : ℕ) (m : Memory) → Room (suc n) m → Room n (given m).1
  pub fewer : (n : ℕ) (m : Memory) → Room (suc n) m → Room n m
  pub same_pages :
      (n : ℕ) (m : Memory) (d va : ℕ)
      → Room (suc n) m
      → m.has_table d (pdx va) ≡ true
      → has_bit perm_present (m.entries (slot d va)) ≡ true
      → ((given m).1.has_table d (pdx va) ≡ true)
        × ((given m).1.entries (slot d va) ≡ m.entries (slot d va))

-- `q` is `p` with more tables: the page file, the disk and what is mapped are as before.
pub record Undisturbed {S : Type 0} (p q : PageFile S) : Type 0 where
  pub valid : FileValid q
  pub pages : (s : ℕ) → q.page_dfns s ≡ p.page_dfns s
  pub disk : q.disk ≡ p.disk
  pub bytes : q.bytes ≡ p.bytes
  pub cr3 : q.cr3 ≡ p.cr3
  pub directory : (f : ℕ) → (q.envs f).env_page_directory ≡ (p.envs f).env_page_directory
  pub free : q.disk_free_frame_list ≡ p.disk_free_frame_list
  pub mapped : (x : ℕ) → is_mapped x p ≡ true → is_mapped x q ≡ true
  pub entry :
      (x : ℕ)
      → is_mapped x p ≡ true
      → q.memory.entries (slot q.cr3 x) ≡ p.memory.entries (slot p.cr3 x)

module _ {S : Type 0} (K : KernelHeap) (G : GivesPages K page_size) where
  given_mapped :
      (n : ℕ) (p : PageFile S) (x : ℕ)
      → G.Room (suc n) p.memory
      → is_mapped x p ≡ true
      → is_mapped x (set_memory p (G.given p.memory).1) ≡ true
  unfolding is_mapped
  given_mapped n p x room h =
      ground
        (arith, h, G.same_pages n p.memory p.cr3 x room (ground (arith, h)) (ground (arith, h)))

  given_entry :
      (n : ℕ) (p : PageFile S) (x : ℕ)
      → G.Room (suc n) p.memory
      → is_mapped x p ≡ true
      → (G.given p.memory).1.entries (slot p.cr3 x) ≡ p.memory.entries (slot p.cr3 x)
  unfolding is_mapped
  given_entry n p x room h =
      (G.same_pages n p.memory p.cr3 x room (ground (arith, h)) (ground (arith, h))).1

  get_disk_page_directory_lem :
      (e : ℕ) (p : PageFile S)
      → FileValid p
      → G.Room 2 p.memory
      → Returns
          (λ r. Undisturbed p r.1 × ((r.1.envs e).disk_env_pgdir ≢ 0) × G.Room 1 r.1.memory)
          (get_disk_page_directory K e p)
  unfolding get_disk_page_directory new_directory is_mapped
  get_disk_page_directory_lem e p v room = elim (Bool-cases ((p.envs e).disk_env_pgdir == 0)) [
    | inl z ↦
        rw (z, G.returns 1 p.memory room, ne→== _ 0 (G.not_null 1 p.memory room))
          (
            _,
            refl,
            (
              record {
                valid =
                    new_directory-FileValid e _ (set_memory p _) (set_memory-FileValid p _ v)
                      (==→eq _ 0 z);
                pages = λ s. refl;
                disk = refl;
                bytes = refl;
                cr3 = refl;
                directory = λ f. ground arith;
                free = refl;
                mapped = λ x h. given_mapped 1 p x room h;
                entry = λ x h. given_entry 1 p x room h;
              },
              ground (arith, G.not_null 1 p.memory room),
              G.left 1 p.memory room,
            ),
          )
    | inr n ↦ rw n (
      _,
      refl,
      (
        record {
          valid = v;
          pages = λ s. refl;
          disk = refl;
          bytes = refl;
          cr3 = refl;
          directory = λ f. ground arith;
          free = refl;
          mapped = λ x h. h;
          entry = λ x h. refl;
        },
        ==→ne _ 0 n,
        G.fewer 1 p.memory room,
      ),
    )
  ]

-- The page has the disk frame `r.1`, and nothing else has changed.
pub record Placed {S : Type 0} (e va : ℕ) (p : PageFile S) (r : ℕ × ℕ × PageFile S) : Type 0 where
  pub code : r.0 ≡ 0
  pub some_frame : r.1 ≢ 0
  pub pages : (s : ℕ) → r.2.page_dfns s ≡ update p.page_dfns (slot e va) r.1 s
  pub valid : FileValid r.2
  pub disk : r.2.disk ≡ p.disk
  pub bytes : r.2.bytes ≡ p.bytes
  pub cr3 : r.2.cr3 ≡ p.cr3
  pub directory : (f : ℕ) → (r.2.envs f).env_page_directory ≡ (p.envs f).env_page_directory
  pub mapped : (x : ℕ) → is_mapped x p ≡ true → is_mapped x r.2 ≡ true
  pub entry :
      (x : ℕ)
      → is_mapped x p ≡ true
      → r.2.memory.entries (slot r.2.cr3 x) ≡ p.memory.entries (slot p.cr3 x)

-- The page file is full, and the page is not in it.
pub record Full {S : Type 0} (e va : ℕ) (p : PageFile S) (r : ℕ × ℕ × PageFile S) : Type 0 where
  pub code : r.0 ≡ e_no_page_file_space
  pub full : p.disk_free_frame_list ≡ []
  pub no_page : p.page_dfns (slot e va) ≡ 0
  pub same : Undisturbed p r.2

module _ {S : Type 0} (e va : ℕ) where
  put_dfn_lem :
      (p q : PageFile S) (l : List ℕ)
      → Undisturbed p q
      → q.disk_free_frame_list ≡ l
      → q.page_dfns (slot e va) ≡ 0
      → q.disk_tables (table_slot e va) ≢ 0
      → Returns (λ r. Placed e va p r ⊎ Full e va p r) (put_dfn e va q (take_first q l))
  unfolding contains is_mapped
  put_dfn_lem p q [] u k z n = (
    _,
    refl,
    inr (record {
      code = refl;
      full = sym u.free ∙ k;
      no_page = sym (u.pages (slot e va)) ∙ z;
      same = u;
    }),
  )
  put_dfn_lem p q (d ∷ l) u k z n =
      let w : Partition q.page_dfns q.table_dfns (d ∷ l) = rw k at u.valid.partition in
      (
        _,
        refl,
        inl (record {
          code = refl;
          some_frame = λ h. omega (arith, h, (w.free_real d (ground arith)).0);
          pages = λ s. ground (arith, u.pages s);
          valid = (put_dfn-FileValid e va q (d ∷ l) w u.valid z n).at;
          disk = u.disk;
          bytes = u.bytes;
          cr3 = u.cr3;
          directory = u.directory;
          mapped = u.mapped;
          entry = u.entry;
        }),
      )

module _ {S : Type 0} (K : KernelHeap) (G : GivesPages K page_size) (e va : ℕ) where
  get_disk_page_table_lem :
      (p : PageFile S)
      → FileValid p
      → va < user_top
      → (p.envs e).disk_env_pgdir ≢ 0
      → G.Room 1 p.memory
      → Returns
          (λ r. Undisturbed p r.1 × (r.0 ≢ 0) × (r.1.disk_tables (table_slot e va) ≢ 0))
          (get_disk_page_table K e va true p)
  unfolding get_disk_page_table new_table is_mapped
  get_disk_page_table_lem p v lt root room =
      elim (Bool-cases (p.disk_tables (table_slot e va) == 0)) [
        | inl z ↦
            let n = G.not_null 0 p.memory room in
            let at : table_slot e va / 1024 ≡ e = omega (arith, lt) in
            rw (ne→== _ 0 root, z, G.returns 0 p.memory room, ne→== _ 0 n)
              (
                _,
                refl,
                (
                  record {
                    valid =
                        new_table-FileValid (table_slot e va) _ (set_memory p _)
                          (set_memory-FileValid p _ v) (==→eq _ 0 z) n (rw at root)
                          (omega (arith, lt));
                    pages = λ s. ground (arith, v.held s, z);
                    disk = refl;
                    bytes = refl;
                    cr3 = refl;
                    directory = λ f. ground arith;
                    free = refl;
                    mapped = λ x h. given_mapped K G 0 p x room h;
                    entry = λ x h. given_entry K G 0 p x room h;
                  },
                  n,
                  ground (arith, n),
                ),
              )
        | inr n ↦
            rw (ne→== _ 0 root, n, not_kernel)
              (
                _,
                refl,
                (
                  record {
                    valid = v;
                    pages = λ s. refl;
                    disk = refl;
                    bytes = refl;
                    cr3 = refl;
                    directory = λ f. ground arith;
                    free = refl;
                    mapped = λ x h. h;
                    entry = λ x h. refl;
                  },
                  ==→ne _ 0 n,
                  ==→ne _ 0 n,
                ),
              )
      ]
    where
      not_kernel : leb user_top va ≡ false
      not_kernel = ground (arith, lt)

  Undisturbed-trans : (p q r : PageFile S) → Undisturbed p q → Undisturbed q r → Undisturbed p r
  Undisturbed-trans p q r a b = record {
    valid = b.valid;
    pages = λ s. b.pages s ∙ a.pages s;
    disk = b.disk ∙ a.disk;
    bytes = b.bytes ∙ a.bytes;
    cr3 = b.cr3 ∙ a.cr3;
    directory = λ f. b.directory f ∙ a.directory f;
    free = b.free ∙ a.free;
    mapped = λ x h. b.mapped x (a.mapped x h);
    entry = λ x h. b.entry x (a.mapped x h) ∙ a.entry x h;
  }

  -- The page gets a disk frame, has one, or there is none left.
  pub get_dfn_lem :
      (p : PageFile S)
      → FileValid p
      → va < user_top
      → G.Room 2 p.memory
      → Returns (λ r. Placed e va p r ⊎ Full e va p r) (get_dfn K e va p)
  unfolding get_dfn
  get_dfn_lem p v lt room =
      let (a, ka, da) = get_disk_page_directory_lem K G e p v room in
      let (ua, root, more) = da in
      let (t, kt, dt) = get_disk_page_table_lem a.1 ua.valid lt root more in
      let (ut, n, there) = dt in
      let u = Undisturbed-trans p a.1 t.1 ua ut in
      let low : ltb va 0xF0000000 ≡ true = ground (arith, lt) in
      elim (Bool-cases (t.1.page_dfns (slot e va) == 0)) [
        | inl z ↦
            rw (low, ka, kt, ne→== _ 0 n, z)
              (put_dfn_lem e va p t.1 t.1.disk_free_frame_list u refl (==→eq _ 0 z) there)
        | inr m ↦
            rw (low, ka, kt, ne→== _ 0 n, m)
              (
                _,
                refl,
                inl (record {
                  code = refl;
                  some_frame = ==→ne _ 0 m;
                  pages = λ s. ground (arith, u.pages s);
                  valid = u.valid;
                  disk = u.disk;
                  bytes = u.bytes;
                  cr3 = u.cr3;
                  directory = u.directory;
                  mapped = u.mapped;
                  entry = u.entry;
                }),
              )
      ]
