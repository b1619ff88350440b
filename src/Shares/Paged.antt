-- ===== src/Shares/Paged.antt =====
-- kern/mem/shared_memory_manager.c: the loop of create_shared_object gives each page a frame and
-- stores it.
use fos_operational_system_f.Common.{
  ℕ, ◌+◌, ◌*◌, ◌^◌, ◌≤◌, ◌<◌, ◌≡◌, ◌≢◌, contains, ◌⊎◌, true, false, none, some, length, update,
}
use fos_operational_system_f.Mmu.{page_size}
use fos_operational_system_f.Frames.State.{Memory, slot, pdx}
use fos_operational_system_f.Frames.Table.{entry_frame, holds_frame}
use fos_operational_system_f.Frames.Valid.{FramesValid}
use fos_operational_system_f.Shares.{Shares}

-- The `left` pages from `va` up have tables and hold nothing.
pub record Creatable (n dir va left : ℕ) (m : Memory) : Type 0 where
  pub low : va + left * page_size < 2 ^ 32
  pub inside : (j : ℕ) → j < left → slot dir va + j < n
  pub tables : (j : ℕ) → j < left → m.has_table dir (pdx (va + j * page_size)) ≡ true
  pub free : (j : ℕ) → j < left → holds_frame (m.entries (slot dir va + j)) ≡ false

-- What the loop leaves: each page holds the frame that is stored under its number, from `i` on.
pub record CreatedPages (base : ℕ → ℕ) (n dir va a i left : ℕ) (s t : Shares) : Type 0 where
  pub valid : FramesValid base n none t.memory
  pub stored :
      (j : ℕ)
      → j < left
      → (holds_frame (t.memory.entries (slot dir va + j)) ≡ true)
        × ((t.storage a).frames (i + j) ≡ some (entry_frame (t.memory.entries (slot dir va + j))))
  pub taken :
      (j : ℕ)
      → j < left
      → contains (entry_frame (t.memory.entries (slot dir va + j))) s.memory.free_frame_list ≡ true
  pub apart :
      (j k : ℕ)
      → j < k
      → k < left
      → entry_frame (t.memory.entries (slot dir va + j))
        ≢ entry_frame (t.memory.entries (slot dir va + k))
  pub early : (j : ℕ) → j < i → (t.storage a).frames j ≡ (s.storage a).frames j
  pub size : (t.storage a).length ≡ (s.storage a).length
  pub others :
      (x : ℕ)
      → (x < slot dir va) ⊎ (slot dir va + left ≤ x)
      → t.memory.entries x ≡ s.memory.entries x
  pub objects :
      (t.share ≡ s.share) × (t.shares_list ≡ s.shares_list) × (t.shareslock ≡ s.shareslock)

-- One turn of the loop.
abbrev stored_one : ℕ → ℕ → ℕ → Memory → Shares → Shares
stored_one a i f k s = record s {
  memory = k;
  storage =
      update s.storage a (record (s.storage a) { frames = update (s.storage a).frames i (some f) });
}
