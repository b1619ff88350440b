-- ===== src/Frames/Marked.antt =====
-- kern/mem/chunk_operations.c: what allocate_user_mem marks.
use fos_operational_system_f.Common.{ℕ, ◌+◌, ◌≤◌, ◌<◌, ◌≡◌, ◌⊎◌}
use fos_operational_system_f.Mmu.{perm_present, perm_uhpage}
use fos_operational_system_f.Frames.State.{Memory, slot}
use fos_operational_system_f.Frames.Table.{bits_or, bits_clear}

abbrev marked : ℕ → ℕ
marked e = bits_clear 32 (bits_or 32 e perm_uhpage) perm_present

-- What marking the `count` pages from `va` up leaves.
pub record MarksPages (dir va count : ℕ) (m k : Memory) : Type 0 where
  pub marks :
      (i : ℕ) → i < count → k.entries (slot dir va + i) ≡ marked (m.entries (slot dir va + i))
  pub others : (s : ℕ) → (s < slot dir va) ⊎ (slot dir va + count ≤ s) → k.entries s ≡ m.entries s
  pub counts : k.frames_info ≡ m.frames_info
  pub frees : k.free_frame_list ≡ m.free_frame_list
  pub tables : k.has_table ≡ m.has_table
