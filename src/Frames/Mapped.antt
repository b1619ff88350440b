-- ===== src/Frames/Mapped.antt =====
-- kern/mem/memory_manager.c: map_frame keeps the counts of the frames exact.
use fos_operational_system_f.Common.{
  ℕ, ◌+◌, ◌^◌, ◌≤◌, ◌<◌, ◌≡◌, ◌≢◌, refl, ap, sym, subst, ◌∙◌, ◌⊎◌, inl, inr, true, false, Option,
  none, some, length, arith, ◌==◌, update, contains, Bool-cases,
}
use fos_operational_system_f.Common.Outcome.{ok, ◌>>=◌}
use fos_operational_system_f.Mmu.{has_bit, perm_buffered, perm_present}
use fos_operational_system_f.Frames.State.{Memory, slot, pdx}
use fos_operational_system_f.Frames.Table.{
  entry_frame, available_bits, holds_frame, construct_entry,
}
use fos_operational_system_f.Frames.Map.{
  KernelHeap, unmap_frame, link_frame, map_in_table, map_frame,
}
use fos_operational_system_f.Frames.Valid.{
  FramesValid, holders, holds_one, holders-update, holds-positive, counted_update,
  available_bits-empty, construct_entry_lem, construct_entry-unbuffered,
}
use fos_operational_system_f.Frames.Unmapped.{unmap_frame_lem}

-- A frame that may get one more reference: it has just been allocated, or it is mapped already
-- and no other is in transit.
pub data Mappable (o : Option ℕ) (f references : ℕ) : Type 0 where
  fresh : o ≡ some f → Mappable o f references
  shared : o ≡ none → 0 < references → Mappable o f references

module _ (base : ℕ → ℕ) (n : ℕ) (o : Option ℕ) (m : Memory) (v : FramesValid base n o m)
    (dir f va perm : ℕ) (lt : slot dir va < n) (real : f < m.number_of_frames)
    (mappable : Mappable o f (m.frames_info f).references)
    (room : (m.frames_info f).references + 1 < 2 ^ 16) (plain : has_bit perm_buffered perm ≡ false)
    (free : holds_frame (m.entries (slot dir va)) ≡ false) where
  abbrev linked : ℕ
  linked = construct_entry f (available_bits (m.entries (slot dir va))) perm

  linked_lem :
      (holds_frame linked ≡ true) × (entry_frame linked ≡ f) × (has_bit perm_present linked ≡ true)
  linked_lem = construct_entry_lem f (available_bits (m.entries (slot dir va))) perm

  listed-unmapped : contains f m.free_frame_list ≡ false
  listed-unmapped = elim (Bool-cases (contains f m.free_frame_list)) [
    | inr c ↦ c
    | inl c ↦ elim mappable [
      | fresh e ↦ absurd (ground (arith, v.transit f e, c))
      | shared _ lt ↦ absurd (omega (arith, v.unused f c, lt))
    ]
  ]

  in_transit : (g : ℕ) → o ≡ some g → g ≡ f
  in_transit g e = elim mappable [
    | fresh h ↦ ground (arith, e, h)
    | shared h _ ↦ absurd (ground (arith, e, h))
  ]

  link_frame-FramesValid : FramesValid base n none (link_frame dir f va perm m)
  unfolding link_frame holds_one
  link_frame-FramesValid = record {
    counted =
        counted_update base n (slot dir va) linked m.entries (λ g. (m.frames_info g).references)
          (λ g. ((link_frame dir f va perm m).frames_info g).references) lt v.counted
          (λ g. ground (arith, free, linked_lem, room));
    small = λ g. ground (arith, v.small g, room);
    inside = λ t h. ground (arith, v.inside t, h, lt);
    real = λ t h. ground (arith, v.real t, h, linked_lem, real);
    unbuffered = λ t. ground (
      arith,
      v.unbuffered t,
      construct_entry-unbuffered f (available_bits (m.entries (slot dir va))) perm
          (available_bits-empty (m.entries (slot dir va)) (v.unbuffered (slot dir va))).1 plain,
    );
    distinct = v.distinct;
    unused = λ g c. ground (arith, v.unused g c, listed-unmapped, c);
    free_real = v.free_real;
    complete = λ g l e. elim (v.complete g l (ground (arith, e, room))) [
      | inl c ↦ inl c
      | inr h ↦ absurd (ground (arith, in_transit g h, e, room))
    ];
    transit = λ g e. absurd (ground (arith, e));
  }

-- What map_frame leaves.
pub record MapsTo (base : ℕ → ℕ) (n : ℕ) (dir f va : ℕ) (m k : Memory) : Type 0 where
  pub valid : FramesValid base n none k
  pub holds : holds_frame (k.entries (slot dir va)) ≡ true
  pub frame : entry_frame (k.entries (slot dir va)) ≡ f
  pub present : has_bit perm_present (k.entries (slot dir va)) ≡ true
  pub others : (t : ℕ) → slot dir va ≢ t → k.entries t ≡ m.entries t
  pub tables : k.has_table ≡ m.has_table
  pub frames : k.number_of_frames ≡ m.number_of_frames

present-held : (e : ℕ) → has_bit perm_present e ≡ true → holds_frame e ≡ true
unfolding holds_frame
present-held e p = ground (arith, p)

module _ (base : ℕ → ℕ) (n dir f va perm : ℕ) (lt : slot dir va < n) where
  pub linked_MapsTo :
      (o : Option ℕ) (m : Memory)
      → FramesValid base n o m
      → f < m.number_of_frames
      → Mappable o f (m.frames_info f).references
      → (m.frames_info f).references + 1 < 2 ^ 16
      → has_bit perm_buffered perm ≡ false
      → holds_frame (m.entries (slot dir va)) ≡ false
      → MapsTo base n dir f va m (link_frame dir f va perm m)
  unfolding link_frame
  linked_MapsTo o m v real mappable room plain free =
      let (h, e, p) = linked_lem base n o m v dir f va perm lt real mappable room plain free in
      record {
        valid = link_frame-FramesValid base n o m v dir f va perm lt real mappable room plain free;
        holds = ground (arith, h);
        frame = ground (arith, e);
        present = ground (arith, p);
        others = λ t ne. ground (arith, ne);
        tables = refl;
        frames = refl;
      }

  -- The count of a frame does not change when the entry that is emptied holds another.
  same_references :
      (o : Option ℕ) (m k : Memory)
      → FramesValid base n o m
      → FramesValid base n o k
      → (entry_frame (m.entries (slot dir va)) == f) ≡ false
      → k.entries ≡ update m.entries (slot dir va) (available_bits (m.entries (slot dir va)))
      → (k.frames_info f).references ≡ (m.frames_info f).references
  unfolding holds_one
  same_references o m k v w ne e =
      let s = slot dir va in
      let a = available_bits (m.entries s) in
      let empty = available_bits-empty (m.entries s) (v.unbuffered s) in
      let count : holders k.entries f n ≡ holders (update m.entries s a) f n =
        ap (λ x. holders x f n) e in
      ground
        (arith, v.counted f, w.counted f, count, holders-update m.entries s a f n lt, empty.0, ne)

  remapped_lem :
      (o : Option ℕ) (m : Memory)
      → FramesValid base n o m
      → f < m.number_of_frames
      → Mappable o f (m.frames_info f).references
      → (m.frames_info f).references + 1 < 2 ^ 16
      → has_bit perm_buffered perm ≡ false
      → m.has_table dir (pdx va) ≡ true
      → holds_frame (m.entries (slot dir va)) ≡ true
      → (entry_frame (m.entries (slot dir va)) == f) ≡ false
      → (k : Memory) × ((unmap_frame dir va m >>= λ n. ok (link_frame dir f va perm n)) ≡ ok k)
        × (length m.free_frame_list ≤ length k.free_frame_list)
        × MapsTo base n dir f va m k
  unfolding link_frame
  remapped_lem o m v real mappable room plain table held ne =
      let (k, call, d) = unmap_frame_lem base n o m dir va v table in
      elim d [
        | inl h ↦ absurd (ground (arith, h.0, held))
        | inr (_, entries, tables, frames, w, listed) ↦
            let same = same_references o m k v w ne entries in
            let a = available_bits-empty (m.entries (slot dir va)) (v.unbuffered (slot dir va)) in
            let z : holds_frame (k.entries (slot dir va)) ≡ false =
              rw (entries) (ground (arith, a.0)) in
            let r =
              linked_MapsTo o k w (ground (arith, real, frames))
                (subst (Mappable o f) (sym same) mappable) (ground (arith, room, same)) plain z in
            let fewer : length m.free_frame_list
                ≤ length (link_frame dir f va perm k).free_frame_list =
              ground (arith, listed) in
            (
              link_frame dir f va perm k,
              rw (call) refl,
              fewer,
              record {
                valid = r.valid;
                holds = r.holds;
                frame = r.frame;
                present = r.present;
                others = λ t ne. r.others t ne ∙ ap (λ x. x t) entries ∙ ground (arith, ne);
                tables = r.tables ∙ tables;
                frames = r.frames ∙ frames;
              },
            )
      ]

  kept_MapsTo :
      (o : Option ℕ) (m : Memory)
      → FramesValid base n o m
      → Mappable o f (m.frames_info f).references
      → has_bit perm_present (m.entries (slot dir va)) ≡ true
      → (entry_frame (m.entries (slot dir va)) == f) ≡ true
      → MapsTo base n dir f va m m
  unfolding holds_frame
  kept_MapsTo o m v mappable p same =
      let held : holds_frame (m.entries (slot dir va)) ≡ true = ground (arith, p) in
      let some_one = holds-positive m.entries (slot dir va) f n lt held (ground (arith, same)) in
      elim mappable [
        | fresh e ↦ absurd (omega (arith, v.transit f e, v.counted f, some_one))
        | shared e _ ↦ record {
          valid = subst (λ o. FramesValid base n o m) e v;
          holds = held;
          frame = ground (arith, same);
          present = p;
          others = λ t _. refl;
          tables = refl;
          frames = refl;
        }
      ]

  -- From a valid state, map_frame of a frame that was just allocated or is mapped elsewhere, and
  -- whose count does not overflow, on a page whose directory has the table and whose entry is
  -- present or holds nothing, never fails. The page is then
  -- present and holds the frame, no other entry is changed, no frame leaves
  -- the free list, and the state is valid with no frame
  -- in transit: every frame's count is the number of its references, that of the frame included
  -- and that of a frame the page held before.
  pub map_frame_lem :
      (h : KernelHeap) (o : Option ℕ) (m : Memory)
      → FramesValid base n o m
      → f < m.number_of_frames
      → Mappable o f (m.frames_info f).references
      → (m.frames_info f).references + 1 < 2 ^ 16
      → has_bit perm_buffered perm ≡ false
      → m.has_table dir (pdx va) ≡ true
      → (holds_frame (m.entries (slot dir va)) ≡ false)
        ⊎ (has_bit perm_present (m.entries (slot dir va)) ≡ true)
      → (k : Memory) × (map_frame h dir f va perm m ≡ ok k)
        × (length m.free_frame_list ≤ length k.free_frame_list)
        × MapsTo base n dir f va m k
  unfolding map_frame map_in_table link_frame
  map_frame_lem h o m v real mappable room plain table page =
      elim (Bool-cases (has_bit perm_present (m.entries (slot dir va)))) [
        | inr absent ↦ elim page [
          | inr p ↦ absurd (ground (arith, p, absent))
          | inl free ↦ (
            link_frame dir f va perm m,
            ground (arith, table, absent),
            omega arith,
            linked_MapsTo o m v real mappable room plain free,
          )
        ]
        | inl p ↦ elim (Bool-cases (entry_frame (m.entries (slot dir va)) == f)) [
          | inl same ↦
              (m, ground (arith, table, p, same), omega arith, kept_MapsTo o m v mappable p same)
          | inr ne ↦
              let held = present-held (m.entries (slot dir va)) p in
              let (k, call, more, r) = remapped_lem o m v real mappable room plain table held ne in
              (k, ground (arith, table, p, ne, call), more, r)
        ]
      ]
