-- ===== src/Frames/Memories.antt =====
-- Concrete machines of three frames, the first of which is reserved.
use fos_operational_system_f.Common.{
  ℕ, ◌≡◌, ap, inl, inr, true, false, none, some, [], ◌∷◌, arith, ◌==◌, if◌then◌else◌, contains,
}
use native.Mathlib.Decide.{ℕ_discrete}
use fos_operational_system_f.Common.Outcome.{ok}
use fos_operational_system_f.Frames.State.{Memory}
use fos_operational_system_f.Frames.Table.{holds_frame}
use fos_operational_system_f.Frames.Map.{KernelHeap}
use fos_operational_system_f.Frames.Valid.{FramesValid, holders, holds_one}

abbrev pub example_memory : Memory
example_memory = record {
  frames_info = λ f. record {
    kheap_mapped_va = 0;
    references = if f == 0 then 1 else 0;
    is_buffered = false;
  };
  number_of_frames = 3;
  free_frame_list = 1 ∷ 2 ∷ [];
  modified = 0;
  has_table = λ d i. true;
  entries = λ s. 0;
}

abbrev pub example_base : ℕ → ℕ
example_base f = if f == 0 then 1 else 0

abbrev pub example_heap : KernelHeap
example_heap = record { kmalloc = λ size m. ok (0, m); kfree = λ va m. ok m }

pub example_memory-FramesValid : FramesValid example_base 4 none example_memory
unfolding holders holds_one holds_frame contains
example_memory-FramesValid = record {
  counted = λ f. ground arith;
  small = λ f. ground arith;
  inside = λ s h. absurd (ground (arith, h));
  real = λ s h. absurd (ground (arith, h));
  unbuffered = λ s. ground arith;
  distinct = (ground arith, (ground arith, tt));
  unused = λ f c. ground (arith, c);
  free_real = λ f c. ground (arith, c);
  complete = λ f lt z. inl (ground (arith, lt, z));
  transit = λ f e. absurd (ground (arith, e));
}

-- The frame 1 is mapped at 0x3000 and the frame 2 is free.
abbrev pub mapped_memory : Memory
mapped_memory = record example_memory {
  frames_info = λ f. record {
    kheap_mapped_va = if f == 1 then 0x3000 else 0;
    references = if f == 0 then 1 else if f == 1 then 1 else 0;
    is_buffered = false;
  };
  free_frame_list = 2 ∷ [];
  entries = λ s. if s == 3 then 0x1007 else 0;
}

-- The frame 1 is held at 0x3000, by an entry that is not present.
abbrev pub absent_memory : Memory
absent_memory = record mapped_memory { entries = λ s. if s == 3 then 0x1006 else 0 }

-- The frame 1 is in transit.
abbrev pub taken_memory : Memory
taken_memory = record example_memory { free_frame_list = 2 ∷ [] }

pub mapped_memory-FramesValid : FramesValid example_base 4 none mapped_memory
unfolding holders holds_one holds_frame contains
mapped_memory-FramesValid = record {
  counted = λ f. ground arith;
  small = λ f. ground arith;
  inside = λ s h. ground (arith, h);
  real = λ s h. ground (arith, h);
  unbuffered = λ s. ground arith;
  distinct = (ground arith, tt);
  unused = λ f c. ground (arith, c);
  free_real = λ f c. ground (arith, c);
  complete = λ f lt z. inl (ground (arith, lt, z));
  transit = λ f e. absurd (ground (arith, e));
}

pub absent_memory-FramesValid : FramesValid example_base 4 none absent_memory
unfolding holders holds_one holds_frame contains
absent_memory-FramesValid = record {
  counted = λ f. ground arith;
  small = λ f. ground arith;
  inside = λ s h. ground (arith, h);
  real = λ s h. ground (arith, h);
  unbuffered = λ s. ground arith;
  distinct = (ground arith, tt);
  unused = λ f c. ground (arith, c);
  free_real = λ f c. ground (arith, c);
  complete = λ f lt z. inl (ground (arith, lt, z));
  transit = λ f e. absurd (ground (arith, e));
}

pub taken_memory-FramesValid : FramesValid example_base 4 (some 1) taken_memory
unfolding holders holds_one holds_frame contains
taken_memory-FramesValid = record {
  counted = λ f. ground arith;
  small = λ f. ground arith;
  inside = λ s h. absurd (ground (arith, h));
  real = λ s h. absurd (ground (arith, h));
  unbuffered = λ s. ground arith;
  distinct = (ground arith, tt);
  unused = λ f c. ground (arith, c);
  free_real = λ f c. ground (arith, c);
  complete = λ f lt z. elim (ℕ_discrete f 1) [
    | yes e ↦ inr (ap some (ground (arith, e)))
    | no ne ↦ inl (ground (arith, lt, z, ne))
  ];
  transit = λ f e. ground (arith, e);
}

pub empty_page : (s : ℕ) → holds_frame (example_memory.entries s) ≡ false
unfolding holds_frame
empty_page s = ground arith

pub held_page : holds_frame (mapped_memory.entries 3) ≡ true
unfolding holds_frame
held_page = ground arith

pub held_absent : holds_frame (absent_memory.entries 3) ≡ true
unfolding holds_frame
held_absent = ground arith
