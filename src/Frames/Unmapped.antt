-- ===== src/Frames/Unmapped.antt =====
-- kern/mem/memory_manager.c: unmap_frame and decrement_references keep the counts exact, and free
-- a frame just when its last page is unmapped.
use fos_operational_system_f.Common.{
  ℕ, ◌+◌, ◌-◌, ◌<◌, ◌≡◌, refl, ◌⊎◌, inl, inr, true, false, Option, some, ◌∷◌, arith, ◌==◌,
  if◌then◌else◌, update, contains, Bool-cases,
}
use native.Mathlib.Decide.{ℕ_discrete}
use fos_operational_system_f.Common.Outcome.{ok, ◌>>=◌}
use fos_operational_system_f.Mmu.{has_bit, perm_buffered}
use fos_operational_system_f.Frames.State.{
  Memory, slot, pdx, initialize_frame_info, set_references, set_entry, free_frame,
  decrement_references,
}
use fos_operational_system_f.Frames.Table.{entry_frame, available_bits, holds_frame, get_frame_info}
use fos_operational_system_f.Frames.Map.{unmap_frame}
use fos_operational_system_f.Frames.Valid.{
  FramesValid, holds_one, holds-positive, counted_update, available_bits-empty,
}

-- The state after unmapping the frame `f` at the slot `s`, where others refer to it, and where
-- that was the last reference.
abbrev shared_left : ℕ → ℕ → Memory → Memory
shared_left s f m =
    set_entry (set_references m f ((m.frames_info f).references - 1)) s
      (available_bits (m.entries s))

abbrev freed_left : ℕ → ℕ → Memory → Memory
freed_left s f m =
    let n = set_references m f ((m.frames_info f).references - 1) in
    set_entry (initialize_frame_info (record n { free_frame_list = f ∷ n.free_frame_list }) f) s
      (available_bits (m.entries s))

module _ (base : ℕ → ℕ) (n : ℕ) (o : Option ℕ) (m : Memory) (v : FramesValid base n o m) (s f : ℕ)
    (held : holds_frame (m.entries s) ≡ true) (frame : entry_frame (m.entries s) ≡ f) where
  referred : 0 < (m.frames_info f).references
  referred = omega (arith, v.counted f, holds-positive m.entries s f n (v.inside s held) held frame)

  not_free : contains f m.free_frame_list ≡ false
  not_free = elim (Bool-cases (contains f m.free_frame_list)) [
    | inr c ↦ c
    | inl c ↦ absurd (omega (arith, v.unused f c, referred))
  ]

  abbrev emptied : ℕ
  emptied = available_bits (m.entries s)

  empty : (holds_frame emptied ≡ false) × (has_bit perm_buffered emptied ≡ false)
  empty = available_bits-empty (m.entries s) (v.unbuffered s)

  one_less :
      (g : ℕ)
      → (if f == g then (m.frames_info f).references - 1 else (m.frames_info g).references)
          + holds_one g (m.entries s)
        ≡ (m.frames_info g).references + holds_one g emptied
  unfolding holds_one
  one_less g = ground (arith, held, frame, empty.0, referred)

  -- The entries that still hold something are as they were.
  rest :
      (t : ℕ)
      → holds_frame (update m.entries s emptied t) ≡ true
      → (update m.entries s emptied t ≡ m.entries t) × (holds_frame (m.entries t) ≡ true)
  rest t h = elim (ℕ_discrete s t) [
    | yes e ↦ absurd (ground (arith, h, e, empty.0))
    | no ne ↦ (ground arith, ground (arith, h))
  ]

  shared_left-FramesValid :
      1 < (m.frames_info f).references → FramesValid base n o (shared_left s f m)
  shared_left-FramesValid many = record {
    counted =
        counted_update base n s emptied m.entries (λ g. (m.frames_info g).references)
          (λ g. ((shared_left s f m).frames_info g).references) (v.inside s held) v.counted
          (λ g. ground (arith, one_less g));
    small = λ g. ground (arith, v.small g, v.small f);
    inside = λ t h. v.inside t (rest t h).1;
    real = λ t h. rw (rest t h).0 (v.real t (rest t h).1);
    unbuffered = λ t. ground (arith, v.unbuffered t, empty.1);
    distinct = v.distinct;
    unused = λ g c. ground (arith, v.unused g c, not_free, c);
    free_real = v.free_real;
    complete = λ g lt e. v.complete g lt (ground (arith, e, many));
    transit = λ g e. ground (arith, v.transit g e, referred, many);
  }

  freed_left-FramesValid :
      (m.frames_info f).references ≡ 1 → FramesValid base n o (freed_left s f m)
  unfolding contains
  freed_left-FramesValid one = record {
    counted =
        counted_update base n s emptied m.entries (λ g. (m.frames_info g).references)
          (λ g. ((freed_left s f m).frames_info g).references) (v.inside s held) v.counted
          (λ g. ground (arith, one_less g, one));
    small = λ g. ground (arith, v.small g);
    inside = λ t h. v.inside t (rest t h).1;
    real = λ t h. rw (rest t h).0 (v.real t (rest t h).1);
    unbuffered = λ t. ground (arith, v.unbuffered t, empty.1);
    distinct = (not_free, v.distinct);
    unused = λ g c. ground (arith, v.unused g, c);
    free_real = λ g c. ground (arith, v.free_real g, c, v.real s held, frame);
    complete = λ g lt e. elim (ℕ_discrete f g) [
      | yes h ↦ inl (ground (arith, h))
      | no ne ↦ elim (v.complete g lt (ground (arith, e, ne))) [
        | inl k ↦ inl (ground (arith, k))
        | inr k ↦ inr k
      ]
    ];
    transit = λ g e. ground (arith, v.transit g e, referred, one);
  }

  -- unmap_frame at the slot, once the frame is found.
  drop_lem :
      (k : Memory) × ((decrement_references f m >>= λ k.
      ok (set_entry k s (available_bits (k.entries s))))
        ≡ ok k)
      × (k.entries ≡ update m.entries s emptied)
      × (k.has_table ≡ m.has_table)
      × (k.number_of_frames ≡ m.number_of_frames)
      × FramesValid base n o k
      × (k.free_frame_list ≡ (
          if (m.frames_info f).references == 1 then f ∷ m.free_frame_list else m.free_frame_list))
  unfolding decrement_references free_frame
  drop_lem = elim (ℕ_discrete (m.frames_info f).references 1) [
    | yes one ↦ (
      freed_left s f m,
      ground (arith, one, not_free),
      refl,
      refl,
      refl,
      freed_left-FramesValid one,
      ground (arith, one),
    )
    | no ne ↦ (
      shared_left s f m,
      ground (arith, ne, referred, v.small f),
      refl,
      refl,
      refl,
      shared_left-FramesValid (omega (arith, ne, referred)),
      ground (arith, ne),
    )
  ]

pub get_frame_info_held :
    (dir va : ℕ) (m : Memory)
    → m.has_table dir (pdx va) ≡ true
    → holds_frame (m.entries (slot dir va)) ≡ true
    → entry_frame (m.entries (slot dir va)) < m.number_of_frames
    → get_frame_info dir va m ≡ ok (some (entry_frame (m.entries (slot dir va))))
unfolding get_frame_info
get_frame_info_held dir va m t h lt = ground (arith, t, h, lt)

-- From a valid state, unmap_frame of a page whose directory has the table never fails. If the
-- page's entry holds nothing, nothing changes. Otherwise the entry keeps only its available bits,
-- every other entry is as it was, the frame goes to the free list just when this was its only
-- reference, and the state is valid again: the counts are exact.
pub unmap_frame_lem :
    (base : ℕ → ℕ) (n : ℕ) (o : Option ℕ) (m : Memory) (dir va : ℕ)
    → FramesValid base n o m
    → m.has_table dir (pdx va) ≡ true
    → (k : Memory) × (unmap_frame dir va m ≡ ok k)
      × (((holds_frame (m.entries (slot dir va)) ≡ false) × (k ≡ m))
          ⊎ ((holds_frame (m.entries (slot dir va)) ≡ true)
              × (k.entries
                  ≡ update m.entries (slot dir va) (available_bits (m.entries (slot dir va))))
              × (k.has_table ≡ m.has_table)
              × (k.number_of_frames ≡ m.number_of_frames)
              × FramesValid base n o k
              × (k.free_frame_list ≡ (
                  let f = entry_frame (m.entries (slot dir va)) in
                  if (m.frames_info f).references == 1
                  then f ∷ m.free_frame_list
                  else m.free_frame_list))))
unfolding unmap_frame get_frame_info
unmap_frame_lem base n o m dir va v t = elim (Bool-cases (holds_frame (m.entries (slot dir va)))) [
  | inr h ↦ (m, ground (arith, t, h), inl (h, refl))
  | inl h ↦
      let f = entry_frame (m.entries (slot dir va)) in
      let (k, call, entries, tables, frames, valid, listed) =
        drop_lem base n o m v (slot dir va) f h refl in
      (
        k,
        rw (get_frame_info_held dir va m t h (v.real (slot dir va) h), unmap_frame) call,
        inr (h, entries, tables, frames, valid, listed),
      )
]
