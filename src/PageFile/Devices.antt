-- ===== src/PageFile/Devices.antt =====
-- kern/disk/pagefile_manager.c: a small disk and heap for the examples.
use fos_operational_system_f.Common.{
  ℕ, suc, ◌+◌, ◌*◌, ◌/◌, ◌≤◌, ◌≡◌, ◌≢◌, refl, ap, ◌∙◌, List, [], ◌∷◌, length, arith, update,
}
use fos_operational_system_f.Mmu.{page_size}
use fos_operational_system_f.Frames.State.{Memory, slot, pdx}
use fos_operational_system_f.Common.Outcome.{ok}
use fos_operational_system_f.Frames.Map.{KernelHeap}
use fos_operational_system_f.PageFile.State.{Ide, DiskEnv}
use fos_operational_system_f.PageFile.Placed.{GivesPages}
use fos_operational_system_f.PageFile.Contents.{IsReliable}

-- A disk that keeps what its sectors hold, eight of them under the first.
abbrev pub small_disk : Ide
small_disk = record {
  State = ℕ → ℕ;
  ide_read = λ s d old. (0, d (s / 8));
  ide_write = λ s b d. (0, update d (s / 8) b);
}

pub small_disk-IsReliable : IsReliable small_disk
small_disk-IsReliable = record {
  contents = λ d s. d (s / 8);
  reads = λ s d old. refl;
  succeeds = λ s b d. refl;
  writes = λ s b d. ground arith;
  keeps = λ s t b d h. ground (arith, h);
}

-- A heap whose blocks are all at one address.
abbrev pub one_page_heap : KernelHeap
one_page_heap = record { kmalloc = λ size m. ok (0xF6000000, m); kfree = λ va m. ok m }

-- A heap that takes a free frame for each block, and gives NULL when there is none.
abbrev pub block_of : List ℕ → Memory → ℕ × Memory
block_of [] m = (0, m)
block_of (f ∷ l) m = (0xF6000000 + f * page_size, record m { free_frame_list = l })

abbrev pub frame_heap : KernelHeap
frame_heap = record { kmalloc = λ size m. ok (block_of m.free_frame_list m); kfree = λ va m. ok m }

pub block_of_lem :
    (n : ℕ) (l : List ℕ) (m : Memory)
    → suc n ≤ length l
    → ((block_of l m).0 ≢ 0)
      × (n ≤ length (block_of l m).1.free_frame_list)
      × ((block_of l m).1.has_table ≡ m.has_table)
      × ((block_of l m).1.entries ≡ m.entries)
block_of_lem n [] m h = absurd (omega (arith, h))
block_of_lem n (f ∷ l) m h = (λ e. omega (arith, e), omega (arith, h), refl, refl)

-- It has room for as many blocks as there are free frames.
abbrev pub frame_heap-GivesPages : (size : ℕ) → GivesPages frame_heap size
frame_heap-GivesPages size = record {
  Room = λ n m. n ≤ length m.free_frame_list;
  given = λ m. block_of m.free_frame_list m;
  returns = λ n m r. refl;
  not_null = λ n m r. (block_of_lem n m.free_frame_list m r).0;
  left = λ n m r. (block_of_lem n m.free_frame_list m r).1;
  fewer = λ n m r. omega (arith, r);
  same_pages = λ n m d va r t h.
      let (a, b, tables, entries) = block_of_lem n m.free_frame_list m r in
      (ap (λ x. x d (pdx va)) tables ∙ t, ap (λ x. x (slot d va)) entries);
}

abbrev pub first_env : DiskEnv
first_env = record {
  env_page_directory = 0;
  disk_env_pgdir = 0;
  disk_env_tabledir = 0;
  init_num_stack_pages = 1;
  n_page_in = 0;
  n_page_out = 0;
  n_new_page_added = 0;
}
