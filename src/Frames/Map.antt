-- ===== src/Frames/Map.antt =====
-- kern/mem/memory_manager.c, kern/mem/paging_helpers.c: mapping and unmapping pages.
use fos_operational_system_f.Common.{
  ℕ, ◌+◌, ◌*◌, ◌/◌, ◌%◌, ◌^◌, true, ◌&&◌, none, some, ◌==◌, ltb, if◌then◌else◌,
}
use fos_operational_system_f.Common.Outcome.{Outcome, ok, panic, fault, ◌>>=◌}
use fos_operational_system_f.Mmu.{page_size, perm_present, has_bit}
use fos_operational_system_f.Frames.State.{
  Memory, Run, slot, pdx, pages_per_directory, set_frame, set_references, set_entry, allocate_frame,
  decrement_references,
}
use fos_operational_system_f.Frames.Table.{
  entry_frame, available_bits, construct_entry, get_frame_info,
}

-- What the memory manager calls of the kernel heap, which is a client of it in turn.
pub record KernelHeap : Type 0 where
  pub kmalloc : ℕ → Memory → Outcome Memory (ℕ × Memory)
  pub kfree : ℕ → Memory → Run

unfoldable pub unmap_frame : ℕ → ℕ → Memory → Run
unmap_frame dir va m = get_frame_info dir va m >>= λ o. elim o [
  | none ↦ ok m
  | some f ↦ decrement_references f m >>= λ n.
      ok (set_entry n (slot dir va) (available_bits (n.entries (slot dir va))))
]

-- Every entry of the table of `va` is 0.
abbrev pub clear_table : ℕ → ℕ → Memory → Memory
clear_table dir va m = record m {
  entries = λ s.
      if (s / pages_per_directory == dir) && (s % pages_per_directory / 1024 == pdx va)
      then 0
      else m.entries s;
}

-- create_page_table, whose link in the directory is `has_table`.
unfoldable pub create_page_table : KernelHeap → ℕ → ℕ → Memory → Run
create_page_table k dir va m = k.kmalloc page_size m >>= λ r.
    if r.0 == 0
    then panic
    else ok (
        clear_table dir va (record r.1 {
          has_table = λ d i. if (d == dir) && (i == pdx va) then true else r.1.has_table d i;
        }))

-- The end of map_frame, from `references++` on.
unfoldable pub link_frame : ℕ → ℕ → ℕ → ℕ → Memory → Memory
link_frame dir f va perm m =
    let i = m.frames_info f in
    let s = slot dir va in
    set_entry
      (set_frame m f (record i { references = (i.references + 1) % 2 ^ 16; kheap_mapped_va = va }))
      s (construct_entry f (available_bits (m.entries s)) perm)

-- map_frame once the page has its table.
unfoldable pub map_in_table : ℕ → ℕ → ℕ → ℕ → Memory → Run
map_in_table dir f va perm m =
    let e = m.entries (slot dir va) in
    if has_bit perm_present e
    then (if entry_frame e == f
        then ok m
        else unmap_frame dir va m >>= λ n. ok (link_frame dir f va perm n))
    else ok (link_frame dir f va perm m)

unfoldable pub map_frame : KernelHeap → ℕ → ℕ → ℕ → ℕ → Memory → Run
map_frame k dir f va perm m =
    (if m.has_table dir (pdx va) then ok m else create_page_table k dir va m)
    >>= map_in_table dir f va perm

-- loadtime_map_frame: neither looks at the old entry nor records the address.
unfoldable pub loadtime_map_frame : KernelHeap → ℕ → ℕ → ℕ → ℕ → Memory → Run
loadtime_map_frame k dir f va perm m =
    (if m.has_table dir (pdx va) then ok m else create_page_table k dir va m) >>= λ n. ok (
      set_entry (set_references n f (((n.frames_info f).references + 1) % 2 ^ 16)) (slot dir va)
        (construct_entry f 0 perm))

-- alloc_page, which returns 1 where the page holds a frame already. map_frame never fails.
unfoldable pub alloc_page : KernelHeap → ℕ → ℕ → ℕ → Memory → Outcome Memory (ℕ × Memory)
alloc_page k dir va perms m = get_frame_info dir va m >>= λ o. elim o [
  | some _ ↦ ok (1, m)
  | none ↦ allocate_frame m >>= λ r. map_frame k dir r.0 va perms r.1 >>= λ n. ok (0, n)
]

-- num_of_references
unfoldable pub num_of_references : ℕ → Memory → Outcome Memory ℕ
num_of_references pa m =
    if ltb (pa / page_size) m.number_of_frames
    then ok (m.frames_info (pa / page_size)).references
    else panic

-- kheap_virtual_address, where frames_info has no such element: undefined.
unfoldable pub kheap_virtual_address : ℕ → Memory → Outcome Memory ℕ
kheap_virtual_address pa m =
    let va = (m.frames_info (pa / page_size)).kheap_mapped_va in
    if ltb (pa / page_size) m.number_of_frames
    then ok (if va == 0 then 0 else (va + pa % page_size) % 2 ^ 32)
    else fault

unfoldable pub kheap_physical_address : ℕ → ℕ → Memory → Outcome Memory ℕ
kheap_physical_address dir va m = get_frame_info dir va m >>= λ o. elim o [
  | none ↦ ok 0
  | some f ↦ ok (f * page_size + va % page_size)
]
