-- ===== src/Frames/UserMem.antt =====
-- kern/mem/chunk_operations.c: marking the pages of the user heap.
use fos_operational_system_f.Common.{
  ℕ, zero, suc, ◌+◌, ◌*◌, ◌/◌, ◌%◌, ◌^◌, Bool, ◌&&◌, ◌||◌, Option, none, some, ◌==◌, ltb, leb,
  if◌then◌else◌,
}
use fos_operational_system_f.Common.Outcome.{Outcome, ok, ◌>>=◌}
use fos_operational_system_f.Mmu.{page_size, roundup, perm_present, perm_uhpage}
use fos_operational_system_f.Frames.State.{Memory, Run, pdx}
use fos_operational_system_f.Frames.Table.{pt_set_page_permissions}
use fos_operational_system_f.Frames.Map.{KernelHeap, create_page_table}

abbrev pub user_heap_start : ℕ
user_heap_start = 0x80000000

abbrev pub user_heap_max : ℕ
user_heap_max = 0xA0000000

-- USER_TOP - 2 * PAGE_SIZE
abbrev pub ustacktop : ℕ
ustacktop = 0xEEBFE000

-- USTACKBOTTOM, where a WorkingSetElement has `size` bytes.
abbrev pub ustackbottom : ℕ → ℕ
ustackbottom size =
    roundup ((0xA0000000 + size * 0xEEC00000 % 2 ^ 32 / page_size) % 2 ^ 32) page_size

-- The test of allocate_user_mem on its range.
unfoldable pub in_user_range : ℕ → ℕ → ℕ → Bool
in_user_range element va size =
    leb user_heap_start va && leb ((va + size) % 2 ^ 32) user_heap_max
    || leb (ustackbottom element) va
    || ltb va ustacktop

-- One turn of the loop of allocate_user_mem.
unfoldable pub allocate_user_page : KernelHeap → ℕ → ℕ → Memory → Run
allocate_user_page h dir va m =
    (if m.has_table dir (pdx va) then ok m else create_page_table h dir va m)
    >>= pt_set_page_permissions dir va perm_uhpage perm_present

-- The loop: `none` where the fuel does not do.
unfoldable pub allocate_user_pages :
    ℕ → KernelHeap → ℕ → ℕ → ℕ → Memory → Outcome Memory (Option Memory)
allocate_user_pages zero h dir va end m = ok none
allocate_user_pages (suc fuel) h dir va end m =
    if ltb va end
    then (allocate_user_page h dir va m
        >>= allocate_user_pages fuel h dir ((va + page_size) % 2 ^ 32) end)
    else ok (some m)

-- allocate_user_mem, where a WorkingSetElement has `element` bytes.
unfoldable pub allocate_user_mem :
    ℕ → ℕ → KernelHeap → ℕ → ℕ → ℕ → Memory → Outcome Memory (Option Memory)
allocate_user_mem fuel element h dir va size m =
    if size == 0
    then ok (some m)
    else (if in_user_range element va size
        then allocate_user_pages fuel h dir va ((va + size) % 2 ^ 32) m
        else ok (some m))
