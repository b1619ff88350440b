-- ===== src/Frames/Valid.antt =====
-- kern/mem/memory_manager.c: the invariant of the frames. A frame's reference count is the number
-- of page table entries that hold it, and a frame is free just when nothing refers to it.
use fos_operational_system_f.Common.{
  ℕ, zero, suc, ◌+◌, ◌^◌, ◌≤◌, ◌<◌, ◌≡◌, refl, ap, ◌⊎◌, true, false, ◌&&◌, Option, some, arith,
  ◌==◌, if◌then◌else◌, update, contains, Distinct,
}
use native.Mathlib.Decide.{ℕ_discrete}
use fos_operational_system_f.Mmu.{has_bit, perm_buffered, perm_present}
use fos_operational_system_f.Frames.State.{Memory}
use fos_operational_system_f.Frames.Bits.{bit_at-bits_or, bit_at_nine, bits_or-lt}
use fos_operational_system_f.Frames.Table.{
  entry_frame, holds_frame, available_bits, construct_entry, bits_or,
}

-- 1 if the entry holds the frame `f`.
unfoldable pub holds_one : ℕ → ℕ → ℕ
holds_one f e = if holds_frame e && (entry_frame e == f) then 1 else 0

-- How many of the first `n` entries hold the frame `f`.
unfoldable pub holders : (ℕ → ℕ) → ℕ → ℕ → ℕ
holders entries f zero = 0
holders entries f (suc n) = holds_one f (entries n) + holders entries f n

-- `base f` counts the references to `f` that are no page table entries, `n` bounds the slots of
-- entries in use, and `o` is a frame that has been allocated and not been mapped yet, if any.
pub record FramesValid (base : ℕ → ℕ) (n : ℕ) (o : Option ℕ) (m : Memory) : Type 0 where
  pub counted : (f : ℕ) → (m.frames_info f).references ≡ base f + holders m.entries f n
  pub small : (f : ℕ) → (m.frames_info f).references < 2 ^ 16
  pub inside : (s : ℕ) → holds_frame (m.entries s) ≡ true → s < n
  pub real :
      (s : ℕ) → holds_frame (m.entries s) ≡ true → entry_frame (m.entries s) < m.number_of_frames
  pub unbuffered : (s : ℕ) → has_bit perm_buffered (m.entries s) ≡ false
  pub distinct : Distinct m.free_frame_list
  pub unused : (f : ℕ) → contains f m.free_frame_list ≡ true → (m.frames_info f).references ≡ 0
  pub free_real : (f : ℕ) → contains f m.free_frame_list ≡ true → f < m.number_of_frames
  pub complete :
      (f : ℕ)
      → f < m.number_of_frames
      → (m.frames_info f).references ≡ 0
      → (contains f m.free_frame_list ≡ true) ⊎ (o ≡ some f)
  pub transit :
      (f : ℕ)
      → o ≡ some f
      → ((m.frames_info f).references ≡ 0)
        × (contains f m.free_frame_list ≡ false)
        × (f < m.number_of_frames)

holders_same :
    (entries : ℕ → ℕ) (s e f n : ℕ) → n ≤ s → holders (update entries s e) f n ≡ holders entries f n
unfolding holders
holders_same entries s e f zero le = refl
holders_same entries s e f (suc n) le = ground (arith, holders_same entries s e f n (omega arith))

-- Replacing the entry of one slot.
pub holders-update :
    (entries : ℕ → ℕ) (s e f n : ℕ)
    → s < n
    → holders (update entries s e) f n + holds_one f (entries s)
      ≡ holders entries f n + holds_one f e
unfolding holders
holders-update entries s e f zero lt = absurd (omega arith)
holders-update entries s e f (suc n) lt = elim (ℕ_discrete s n) [
  | yes h ↦ ground (arith, holders_same entries s e f n (omega arith), ap entries h)
  | no k ↦ ground (arith, holders-update entries s e f n (omega arith))
]

-- A frame that an entry holds is referred to.
pub holds-positive :
    (entries : ℕ → ℕ) (s f n : ℕ)
    → s < n
    → holds_frame (entries s) ≡ true
    → entry_frame (entries s) ≡ f
    → 0 < holders entries f n
unfolding holders holds_one
holds-positive entries s f zero lt h e = absurd (omega arith)
holds-positive entries s f (suc n) lt h e = elim (ℕ_discrete s n) [
  | yes q ↦ ground (arith, h, e, ap entries q)
  | no k ↦ omega (arith, holds-positive entries s f n (omega arith) h e)
]

-- The count stays exact when an entry and the counts change together.
pub counted_update :
    (base : ℕ → ℕ) (n s e : ℕ) (entries r r' : ℕ → ℕ)
    → s < n
    → ((f : ℕ) → r f ≡ base f + holders entries f n)
    → ((f : ℕ) → r' f + holds_one f (entries s) ≡ r f + holds_one f e)
    → (f : ℕ) → r' f ≡ base f + holders (update entries s e) f n
counted_update base n s e entries r r' lt c h f =
    omega (arith, c f, h f, holders-update entries s e f n lt)

-- What unmapping leaves in an entry holds nothing.
pub available_bits-empty :
    (e : ℕ)
    → has_bit perm_buffered e ≡ false
    → (holds_frame (available_bits e) ≡ false) × (has_bit perm_buffered (available_bits e) ≡ false)
unfolding holds_frame
available_bits-empty e h = (ground arith, ground arith)

-- An entry that map_frame writes holds its frame.
pub construct_entry_lem :
    (f available perm : ℕ)
    → (holds_frame (construct_entry f available perm) ≡ true)
      × (entry_frame (construct_entry f available perm) ≡ f)
      × (has_bit perm_present (construct_entry f available perm) ≡ true)
unfolding construct_entry holds_frame
construct_entry_lem f available perm =
    let lt = bits_or-lt 12 available perm in (ground arith, ground arith, ground arith)

pub construct_entry-unbuffered :
    (f available perm : ℕ)
    → has_bit perm_buffered available ≡ false
    → has_bit perm_buffered perm ≡ false
    → has_bit perm_buffered (construct_entry f available perm) ≡ false
unfolding construct_entry
construct_entry-unbuffered f available perm p q =
    let z = bit_at-bits_or 12 9 available perm (omega arith) in
    ground (
      arith,
      z,
      p,
      q,
      bit_at_nine (bits_or 12 available perm),
      bit_at_nine available,
      bit_at_nine perm,
    )
