-- ===== src/Frames/State.antt =====
-- inc/memlayout.h, kern/mem/boot_memory_manager.h, inc/mmu.h: the frames of the machine, the free
-- frame list and the page tables; the list functions of kern/mem/memory_manager.c.
use fos_operational_system_f.Common.{
  ℕ, suc, ◌+◌, ◌-◌, ◌*◌, ◌/◌, ◌%◌, ◌^◌, Bool, false, List, [], ◌∷◌, ◌==◌, if◌then◌else◌, update,
  contains, length,
}
use fos_operational_system_f.Common.Outcome.{Outcome, ok, panic, fault}
use fos_operational_system_f.Mmu.{page_size}

-- `struct FrameInfo`. Its `references` is a uint16.
pub record FrameInfo : Type 0 where
  pub kheap_mapped_va : ℕ
  pub references : ℕ
  pub is_buffered : Bool

-- A frame is its number, and a page directory is a number too. `has_table dir i` says whether the
-- i-th entry of the directory has a table, which is then in memory. `entries` is every page table
-- entry: that of a page stands at `slot dir va`, and counts only where the directory has the table.
-- The head of `free_frame_list` is LIST_FIRST. `modified` is the length of modified_frame_list.
-- The lock of the lists is left out: each function takes and drops it round its body.
pub record Memory : Type 0 where
  pub frames_info : ℕ → FrameInfo
  pub number_of_frames : ℕ
  pub free_frame_list : List ℕ
  pub modified : ℕ
  pub has_table : ℕ → ℕ → Bool
  pub entries : ℕ → ℕ

abbrev pub Run : Type 0
Run = Outcome Memory Memory

abbrev pub pages_per_directory : ℕ
pages_per_directory = 0x100000

abbrev pub slot : ℕ → ℕ → ℕ
slot dir va = dir * pages_per_directory + va / page_size

-- PDX
abbrev pub pdx : ℕ → ℕ
pdx va = va / 2 ^ 22

abbrev pub set_frame : Memory → ℕ → FrameInfo → Memory
set_frame m f i = record m { frames_info = update m.frames_info f i }

abbrev pub set_references : Memory → ℕ → ℕ → Memory
set_references m f n = set_frame m f (record (m.frames_info f) { references = n })

abbrev pub set_entry : Memory → ℕ → ℕ → Memory
set_entry m s e = record m { entries = update m.entries s e }

-- initialize_frame_info
abbrev pub initialize_frame_info : Memory → ℕ → Memory
initialize_frame_info m f =
    set_frame m f (record { kheap_mapped_va = 0; references = 0; is_buffered = false })

-- allocate_frame
unfoldable pub allocate_frame : Memory → Outcome Memory (ℕ × Memory)
allocate_frame m = elim m.free_frame_list [
  | [] ↦ panic
  | f ∷ l ↦ ok (f, initialize_frame_info (record m { free_frame_list = l }) f)
]

-- free_frame; to insert a frame that is on the list corrupts the list.
unfoldable pub free_frame : ℕ → Memory → Run
free_frame f m =
    if contains f m.free_frame_list
    then fault
    else ok (initialize_frame_info (record m { free_frame_list = f ∷ m.free_frame_list }) f)

unfoldable pub decrement_references : ℕ → Memory → Run
decrement_references f m =
    let n = ((m.frames_info f).references + (2 ^ 16 - 1)) % 2 ^ 16 in
    if n == 0 then free_frame f (set_references m f n) else ok (set_references m f n)

-- calculate_available_frames
pub record FreeFramesCounters : Type 0 where
  pub free_buffered : ℕ
  pub free_not_buffered : ℕ
  pub modified : ℕ

unfoldable pub count_buffered : Memory → List ℕ → ℕ
count_buffered m [] = 0
count_buffered m (f ∷ l) =
    if (m.frames_info f).is_buffered then suc (count_buffered m l) else count_buffered m l

unfoldable pub calculate_available_frames : Memory → FreeFramesCounters
calculate_available_frames m = record {
  free_buffered = count_buffered m m.free_frame_list;
  free_not_buffered = length m.free_frame_list - count_buffered m m.free_frame_list;
  modified = m.modified;
}
