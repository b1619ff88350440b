-- ===== src/Frames/Paged.antt =====
-- kern/mem/paging_helpers.c: alloc_page gives a page a frame of its own, and unmap_frame takes it
-- back.
use fos_operational_system_f.Common.{
  ℕ, ◌+◌, ◌*◌, ◌/◌, ◌%◌, ◌^◌, ◌≤◌, ◌<◌, ◌≡◌, ◌≢◌, refl, ap, sym, subst, ◌∙◌, ◌⊎◌, inl, inr, true,
  false, none, some, List, [], ◌∷◌, arith, Bool-cases,
}
use fos_operational_system_f.Common.Outcome.{Outcome, ok, panic, ◌>>=◌}
use fos_operational_system_f.Mmu.{page_size, has_bit, perm_buffered}
use fos_operational_system_f.Frames.State.{Memory, slot, pdx}
use fos_operational_system_f.Frames.Table.{entry_frame, holds_frame, get_frame_info}
use fos_operational_system_f.Frames.Map.{
  KernelHeap, unmap_frame, link_frame, map_in_table, map_frame, alloc_page, kheap_virtual_address,
  kheap_physical_address,
}
use fos_operational_system_f.Frames.Valid.{FramesValid}
use fos_operational_system_f.Frames.Allocated.{allocate_frame_lem}
use fos_operational_system_f.Frames.Unmapped.{unmap_frame_lem, get_frame_info_held}
use fos_operational_system_f.Frames.Mapped.{MapsTo, fresh, linked_MapsTo}

-- What alloc_page leaves: the page at `va` is mapped to `f`, which was at the head of the free
-- list and which nothing else refers to.
pub record Owns (base : ℕ → ℕ) (n : ℕ) (dir f va : ℕ) (m k : Memory) : Type 0 where
  pub maps : MapsTo base n dir f va m k
  pub taken : m.free_frame_list ≡ f ∷ k.free_frame_list
  pub alone : (k.frames_info f).references ≡ 1
  pub recorded : (k.frames_info f).kheap_mapped_va ≡ va

get_frame_info_empty :
    (dir va : ℕ) (m : Memory)
    → holds_frame (m.entries (slot dir va)) ≡ false
    → get_frame_info dir va m ≡ ok none
unfolding get_frame_info
get_frame_info_empty dir va m h = ground (arith, h)

pub map_frame_empty :
    (h : KernelHeap) (dir f va perm : ℕ) (m : Memory)
    → m.has_table dir (pdx va) ≡ true
    → holds_frame (m.entries (slot dir va)) ≡ false
    → map_frame h dir f va perm m ≡ ok (link_frame dir f va perm m)
unfolding map_frame map_in_table holds_frame
map_frame_empty h dir f va perm m table free = ground (arith, table, free)

link_frame-Owns :
    (base : ℕ → ℕ) (n dir f va perm : ℕ) (m k : Memory)
    → FramesValid base n (some f) k
    → slot dir va < n
    → has_bit perm_buffered perm ≡ false
    → holds_frame (k.entries (slot dir va)) ≡ false
    → m.free_frame_list ≡ f ∷ k.free_frame_list
    → k.entries ≡ m.entries
    → k.has_table ≡ m.has_table
    → k.number_of_frames ≡ m.number_of_frames
    → Owns base n dir f va m (link_frame dir f va perm k)
unfolding link_frame
link_frame-Owns base n dir f va perm m k w lt plain fr l entries tables frames =
    let (z, c, real) = w.transit f refl in
    let r =
      linked_MapsTo base n dir f va perm lt (some f) k w real (fresh refl) (omega (arith, z)) plain
        fr in
    record {
      maps = record {
        valid = r.valid;
        holds = r.holds;
        frame = r.frame;
        present = r.present;
        others = λ t ne. r.others t ne ∙ ap (λ x. x t) entries;
        tables = tables;
        frames = frames;
      };
      taken = l;
      alone = ground (arith, z);
      recorded = ground arith;
    }

-- From a valid state, for a page whose directory has the table, alloc_page returns 1 and changes
-- nothing if the page's entry holds a frame; if it holds none, it panics if no frame is free, and
-- otherwise it returns 0 with the page present and mapped to the head of the free list, which has
-- left the list and which nothing else refers to, in a valid state.
pub alloc_page_lem :
    (h : KernelHeap) (base : ℕ → ℕ) (n dir va perm : ℕ) (m : Memory)
    → FramesValid base n none m
    → slot dir va < n
    → has_bit perm_buffered perm ≡ false
    → m.has_table dir (pdx va) ≡ true
    → ((holds_frame (m.entries (slot dir va)) ≡ true) × (alloc_page h dir va perm m ≡ ok (1, m)))
      ⊎ (((holds_frame (m.entries (slot dir va)) ≡ false)
            × (m.free_frame_list ≡ [])
            × (alloc_page h dir va perm m ≡ panic))
          ⊎ ((f : ℕ) × (k : Memory) × (holds_frame (m.entries (slot dir va)) ≡ false)
              × (alloc_page h dir va perm m ≡ ok (0, k))
              × Owns base n dir f va m k))
unfolding alloc_page
alloc_page_lem h base n dir va perm m v lt plain table =
    elim (Bool-cases (holds_frame (m.entries (slot dir va)))) [
      | inl e ↦ inl (e, rw (get_frame_info_held dir va m table e (v.real (slot dir va) e)) refl)
      | inr e ↦
          let none_there = get_frame_info_empty dir va m e in
          inr (elim (allocate_frame_lem base n m v) [
            | inl (z, q) ↦ inl (e, z, rw (none_there, q) refl)
            | inr (f, k, q, l, entries, tables, frames, w) ↦
                let tb : k.has_table dir (pdx va) ≡ true =
                  ap (λ t. t dir (pdx va)) tables ∙ table in
                let fr : holds_frame (k.entries (slot dir va)) ≡ false =
                  ap (λ t. holds_frame (t (slot dir va))) entries ∙ e in
                inr (
                  f,
                  link_frame dir f va perm k,
                  e,
                  rw (none_there, q, map_frame_empty h dir f va perm k tb fr) refl,
                  link_frame-Owns base n dir f va perm m k w lt plain fr l entries tables frames,
                )
          ])
    ]

-- Unmapping a page takes back what alloc_page gave it.
unmap_frame-Owns :
    (base : ℕ → ℕ) (n dir f va : ℕ) (m k : Memory)
    → Owns base n dir f va m k
    → m.has_table dir (pdx va) ≡ true
    → (j : Memory) × (unmap_frame dir va k ≡ ok j)
      × (j.free_frame_list ≡ m.free_frame_list)
      × (holds_frame (j.entries (slot dir va)) ≡ false)
      × ((t : ℕ) → slot dir va ≢ t → j.entries t ≡ m.entries t)
      × FramesValid base n none j
unfolding holds_frame
unmap_frame-Owns base n dir f va m k o table =
    let (j, call, d) =
      unmap_frame_lem base n none k dir va o.maps.valid
        (ap (λ t. t dir (pdx va)) o.maps.tables ∙ table) in
    elim d [
      | inl h ↦ absurd (ground (arith, h.0, o.maps.holds))
      | inr (_, entries, _, _, w, listed) ↦ (
        j,
        call,
        rw (listed, o.maps.frame, o.alone) (sym o.taken),
        rw (entries) (ground (arith, o.maps.valid.unbuffered (slot dir va))),
        λ t ne. rw (entries) (ground (arith, ne, o.maps.others t ne)),
        w,
      )
    ]

-- From a valid state, for a page that holds nothing and whose directory has the table, with a
-- frame free, alloc_page and then unmap_frame succeed, and leave a valid state with the free list
-- as it was, the page holding nothing, and every other page table entry as it was.
pub unmap_frame-alloc_page :
    (h : KernelHeap) (base : ℕ → ℕ) (n dir va perm f : ℕ) (l : List ℕ) (m : Memory)
    → FramesValid base n none m
    → slot dir va < n
    → has_bit perm_buffered perm ≡ false
    → m.has_table dir (pdx va) ≡ true
    → holds_frame (m.entries (slot dir va)) ≡ false
    → m.free_frame_list ≡ f ∷ l
    → (j : Memory) × ((alloc_page h dir va perm m >>= λ r. unmap_frame dir va r.1) ≡ ok j)
      × (j.free_frame_list ≡ m.free_frame_list)
      × (holds_frame (j.entries (slot dir va)) ≡ false)
      × ((t : ℕ) → slot dir va ≢ t → j.entries t ≡ m.entries t)
      × FramesValid base n none j
unmap_frame-alloc_page h base n dir va perm f l m v lt plain table e q =
    elim (alloc_page_lem h base n dir va perm m v lt plain table) [
      | inl (c, _) ↦ absurd (ground (arith, c, e))
      | inr (inl (_, z, _)) ↦ absurd (ground (arith, z, q))
      | inr (inr (g, k, _, call, o)) ↦
          let r = unmap_frame-Owns base n dir g va m k o table in
          (r.0, rw (call) r.1, r.2, r.3, r.4, r.5)
    ]

result_or : Memory → Outcome Memory (ℕ × Memory) → Memory
result_or m (ok (_, k)) = k
result_or m _ = m

-- The addresses of a page, and of the frame that it owns.
Owns-addresses :
    (base : ℕ → ℕ) (n dir f va i : ℕ) (m k : Memory)
    → Owns base n dir f va m k
    → m.has_table dir (pdx va) ≡ true
    → 0 < va
    → va + page_size ≤ 2 ^ 32
    → va % page_size ≡ 0
    → i < page_size
    → (pa : ℕ) × (kheap_physical_address dir (va + i) k ≡ ok pa)
      × (pa % page_size ≡ i)
      × (kheap_virtual_address pa k ≡ ok (va + i))
unfolding kheap_physical_address kheap_virtual_address
Owns-addresses base n dir f va i m k o table low high a il =
    let same : slot dir (va + i) ≡ slot dir va = omega (arith, a, il) in
    let table_too : pdx (va + i) ≡ pdx va = omega (arith, a, il) in
    let pa = f * page_size + i in
    let number : pa / page_size ≡ f = omega (arith, il) in
    let offset : pa % page_size ≡ i = omega (arith, il) in
    let at : (va + i) % page_size ≡ i = omega (arith, a, il) in
    let real = o.maps.valid.real (slot dir va) o.maps.holds in
    let there : get_frame_info dir (va + i) k ≡ ok (some f) =
      get_frame_info_held dir (va + i) k
        (ap (k.has_table dir) table_too ∙ ap (λ t. t dir (pdx va)) o.maps.tables ∙ table)
        (ap (λ s. holds_frame (k.entries s)) same ∙ o.maps.holds)
        (subst (λ s. entry_frame (k.entries s) < k.number_of_frames) (sym same) real)
      ∙ ap (λ s. ok (some (entry_frame (k.entries s)))) same
      ∙ ap (λ f. ok (some f)) o.maps.frame in
    let back : kheap_virtual_address pa k ≡ ok (va + i) =
      rw (number, offset, o.recorded) (ground (arith, real, o.maps.frame, low, high, il)) in
    (pa, rw (there, at) refl, offset, back)

-- After alloc_page has given a page of the kernel heap, at a page-aligned address other than 0, a
-- frame, kheap_physical_address of each address in the page is in that frame, at the same offset,
-- and kheap_virtual_address takes it back.
pub kheap_virtual_address-kheap_physical_address :
    (h : KernelHeap) (base : ℕ → ℕ) (n dir va perm i : ℕ) (m k : Memory)
    → FramesValid base n none m
    → slot dir va < n
    → has_bit perm_buffered perm ≡ false
    → m.has_table dir (pdx va) ≡ true
    → 0 < va
    → va + page_size ≤ 2 ^ 32
    → va % page_size ≡ 0
    → i < page_size
    → alloc_page h dir va perm m ≡ ok (0, k)
    → (pa : ℕ) × (kheap_physical_address dir (va + i) k ≡ ok pa)
      × (pa % page_size ≡ i)
      × (kheap_virtual_address pa k ≡ ok (va + i))
unfolding result_or
kheap_virtual_address-kheap_physical_address h base n dir va perm i m k v lt plain table low high a
      il call =
    elim (alloc_page_lem h base n dir va perm m v lt plain table) [
      | inl (_, c) ↦ absurd (ground (arith, c, call))
      | inr (inl (_, _, c)) ↦ absurd (ground (arith, c, call))
      | inr (inr (f, j, _, c, o)) ↦
          let same : j ≡ k = sym (ap (result_or m) c) ∙ ap (result_or m) call in
          subst
            (λ k.
              (pa : ℕ) × (kheap_physical_address dir (va + i) k ≡ ok pa)
              × (pa % page_size ≡ i)
              × (kheap_virtual_address pa k ≡ ok (va + i)))
            same (Owns-addresses base n dir f va i m j o table low high a il)
    ]
