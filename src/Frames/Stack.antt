-- ===== src/Frames/Stack.antt =====
-- kern/proc/user_environment.c: the kernel stack of a process.
use fos_operational_system_f.Common.{ℕ, zero, suc, ◌+◌, ◌*◌, ◌/◌, none, some, ◌==◌, if◌then◌else◌}
use fos_operational_system_f.Common.Outcome.{Outcome, ok, ◌>>=◌}
use fos_operational_system_f.Mmu.{page_size, perm_present}
use fos_operational_system_f.Frames.State.{Memory, Run, allocate_frame, free_frame}
use fos_operational_system_f.Frames.Table.{get_frame_info, pt_set_page_permissions}
use fos_operational_system_f.Frames.Map.{KernelHeap, unmap_frame, map_frame}

abbrev pub kernel_stack_size : ℕ
kernel_stack_size = 8 * page_size

-- PERM_WRITEABLE | PERM_USER | PERM_PRESENT
abbrev pub stack_permissions : ℕ
stack_permissions = 7

-- The loop of create_user_kern_stack, with `left` turns to go: it first moves to the next page.
unfoldable pub map_stack_pages : KernelHeap → ℕ → ℕ → ℕ → Memory → Run
map_stack_pages h dir va zero m = ok m
map_stack_pages h dir va (suc left) m = allocate_frame m >>= λ r.
    map_frame h dir r.0 (va + page_size) stack_permissions r.1
    >>= map_stack_pages h dir (va + page_size) left

unfoldable pub create_user_kern_stack : KernelHeap → ℕ → Memory → Outcome Memory (ℕ × Memory)
create_user_kern_stack h dir m = h.kmalloc kernel_stack_size m >>= λ r.
    pt_set_page_permissions dir r.0 0 perm_present r.1 >>= λ n.
    map_stack_pages h dir (r.0 + page_size) (kernel_stack_size / page_size) n >>= λ k. ok (r.0, k)

-- One turn of the loop of delete_user_kern_stack.
unfoldable pub delete_stack_page : ℕ → ℕ → Memory → Run
delete_stack_page dir va m = get_frame_info dir va m >>= λ o. elim o [
  | none ↦ ok m
  | some f ↦ unmap_frame dir va m >>= free_frame f
]

-- The loop of delete_user_kern_stack, with `left` turns to go.
unfoldable pub delete_stack_pages : ℕ → ℕ → ℕ → Memory → Run
delete_stack_pages dir va zero m = ok m
delete_stack_pages dir va (suc left) m =
    delete_stack_page dir va m >>= delete_stack_pages dir (va + page_size) left

-- delete_user_kern_stack of the stack at `kstack`, which comes back as what `kstack` is then.
unfoldable pub delete_user_kern_stack : KernelHeap → ℕ → ℕ → Memory → Outcome Memory (ℕ × Memory)
delete_user_kern_stack h dir kstack m =
    if kstack == 0
    then ok (0, m)
    else (delete_stack_pages dir kstack (kernel_stack_size / page_size) m
        >>= h.kfree kstack
        >>= λ k. ok (0, k))
