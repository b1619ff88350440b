-- ===== src/Frames/Allocated.antt =====
-- kern/mem/memory_manager.c: allocate_frame and free_frame hand a frame out and take it back.
use fos_operational_system_f.Common.{
  ℕ, ◌<◌, ◌≡◌, refl, ap, subst, ◌∙◌, ◌⊎◌, inl, inr, true, false, none, some, List, [], ◌∷◌, arith,
  update, contains, Distinct, List-cases,
}
use native.Mathlib.Decide.{ℕ_discrete}
use fos_operational_system_f.Common.Outcome.{ok, panic}
use fos_operational_system_f.Frames.State.{
  Memory, initialize_frame_info, allocate_frame, free_frame,
}
use fos_operational_system_f.Frames.Valid.{FramesValid}

-- The frame `f` has left the free list `f ∷ l`.
taken-FramesValid :
    (base : ℕ → ℕ) (n f : ℕ) (l : List ℕ) (m : Memory)
    → FramesValid base n none m
    → m.free_frame_list ≡ f ∷ l
    → FramesValid base n (some f) (initialize_frame_info (record m { free_frame_list = l }) f)
unfolding contains
taken-FramesValid base n f l m v q = record {
  counted = λ g. ground (arith, v.counted g, z, v.counted f);
  small = λ g. ground (arith, v.small g);
  inside = v.inside;
  real = v.real;
  unbuffered = v.unbuffered;
  distinct = d.1;
  unused = λ g c. ground (arith, v.unused g (listed g c), z);
  free_real = λ g c. v.free_real g (listed g c);
  complete = λ g lt e. still g lt e;
  transit = λ g e. ground (arith, e, d.0, v.free_real f in_front);
}
  where
    d : Distinct (f ∷ l)
    d = subst Distinct q v.distinct

    in_front : contains f m.free_frame_list ≡ true
    in_front = ap (contains f) q ∙ ground arith

    z : (m.frames_info f).references ≡ 0
    z = v.unused f in_front

    listed : (g : ℕ) → contains g l ≡ true → contains g m.free_frame_list ≡ true
    listed g c = ap (contains g) q ∙ ground (arith, c)

    still :
        (g : ℕ)
        → g < m.number_of_frames
        → (update m.frames_info f
            (record { kheap_mapped_va = 0; references = 0; is_buffered = false })
            g).references
          ≡ 0
        → (contains g l ≡ true) ⊎ (some f ≡ some g)
    still g lt e = elim (ℕ_discrete f g) [
      | yes h ↦ inr (ap some h)
      | no ne ↦ elim (v.complete g lt (ground (arith, e, ne))) [
        | inl c ↦ inl (ground (arith, c, ap (contains g) q, ne))
        | inr h ↦ absurd (ground (arith, h))
      ]
    ]

-- From a valid state with no frame in transit: with the free list empty, allocate_frame panics;
-- otherwise it returns a frame of the machine that nothing refers to and that is on the free list
-- no more, and the state is valid with that frame in transit.
pub allocate_frame_lem :
    (base : ℕ → ℕ) (n : ℕ) (m : Memory)
    → FramesValid base n none m
    → ((m.free_frame_list ≡ []) × (allocate_frame m ≡ panic))
      ⊎ ((f : ℕ) × (k : Memory) × (allocate_frame m ≡ ok (f, k))
          × (m.free_frame_list ≡ f ∷ k.free_frame_list)
          × (k.entries ≡ m.entries)
          × (k.has_table ≡ m.has_table)
          × (k.number_of_frames ≡ m.number_of_frames)
          × FramesValid base n (some f) k)
unfolding allocate_frame
allocate_frame_lem base n m v = elim (List-cases m.free_frame_list) [
  | inl z ↦ inl (z, ground (arith, z))
  | inr (f, l, q) ↦ inr (
    f,
    initialize_frame_info (record m { free_frame_list = l }) f,
    ground (arith, q),
    q,
    refl,
    refl,
    refl,
    taken-FramesValid base n f l m v q,
  )
]

-- From a valid state with a frame in transit, free_frame puts it on the free list, and the state
-- is valid with none in transit.
pub free_frame_lem :
    (base : ℕ → ℕ) (n f : ℕ) (m : Memory)
    → FramesValid base n (some f) m
    → (k : Memory) × (free_frame f m ≡ ok k)
      × (k.free_frame_list ≡ f ∷ m.free_frame_list)
      × (k.entries ≡ m.entries)
      × FramesValid base n none k
unfolding free_frame contains
free_frame_lem base n f m v =
    let (z, c, lt) = v.transit f refl in
    (
      initialize_frame_info (record m { free_frame_list = f ∷ m.free_frame_list }) f,
      ground (arith, c),
      refl,
      refl,
      record {
        counted = λ g. ground (arith, v.counted g, v.counted f, z);
        small = λ g. ground (arith, v.small g);
        inside = v.inside;
        real = v.real;
        unbuffered = v.unbuffered;
        distinct = (c, v.distinct);
        unused = λ g h. ground (arith, h, v.unused g);
        free_real = λ g h. ground (arith, h, v.free_real g, lt);
        complete = λ g l e. inl (elim (ℕ_discrete f g) [
          | yes h ↦ ground (arith, h)
          | no ne ↦ elim (v.complete g l (ground (arith, e, ne))) [
            | inl k ↦ ground (arith, k)
            | inr k ↦ absurd (ne (ground (arith, k)))
          ]
        ]);
        transit = λ g e. absurd (ground (arith, e));
      },
    )
