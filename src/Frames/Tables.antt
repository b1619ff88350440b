-- ===== src/Frames/Tables.antt =====
-- kern/mem/paging_helpers.c: del_page_table.
use fos_operational_system_f.Common.{ℕ, ◌≡◌, false, ◌&&◌, arith, ◌==◌, if◌then◌else◌}
use fos_operational_system_f.Common.Outcome.{ok, ◌>>=◌}
use fos_operational_system_f.Frames.State.{Memory, Run, pdx}
use fos_operational_system_f.Frames.Map.{KernelHeap}

-- del_page_table, where `kernel` is the global ptr_page_directory, which the code works on in place
-- of `page_dir`, and `address` is where the table of a directory's entry stands.
unfoldable pub del_page_table : KernelHeap → (ℕ → ℕ → ℕ) → ℕ → ℕ → ℕ → Memory → Run
del_page_table h address kernel page_dir va m =
    if m.has_table kernel (pdx va)
    then (h.kfree (address kernel (pdx va)) m >>= λ n. ok (record n {
      has_table = λ d i. if (d == kernel) && (i == pdx va) then false else n.has_table d i;
    }))
    else ok m

-- Where the kernel's directory has no table for the address, del_page_table changes nothing, also
-- if the given directory has one.
del_page_table_lem :
    (h : KernelHeap) (address : ℕ → ℕ → ℕ) (kernel page_dir va : ℕ) (m : Memory)
    → m.has_table kernel (pdx va) ≡ false
    → del_page_table h address kernel page_dir va m ≡ ok m
unfolding del_page_table
del_page_table_lem h address kernel page_dir va m none = ground (arith, none)
