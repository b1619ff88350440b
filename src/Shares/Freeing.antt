-- ===== src/Shares/Freeing.antt =====
-- kern/mem/shared_memory_manager.c: free_share.
use fos_operational_system_f.Common.{
  ℕ, zero, suc, ◌+◌, none, some, ◌==◌, if◌then◌else◌, contains, erase,
}
use fos_operational_system_f.Common.Outcome.{ok, fault, ◌>>=◌}
use fos_operational_system_f.Frames.State.{free_frame}
use fos_operational_system_f.Frames.Map.{KernelHeap}
use fos_operational_system_f.Shares.{Shares, Run, on_memory, acquire_shareslock, release_shareslock}

-- The loop of free_share from the pointer `i` on, with `left` elements of the array to go: it ends
-- at a null pointer, and to read behind the array is undefined.
unfoldable pub free_stored : ℕ → ℕ → ℕ → Shares → Run
free_stored a i zero s = fault
free_stored a i (suc left) s = elim ((s.storage a).frames i) [
  | none ↦ ok s
  | some f ↦ on_memory s (free_frame f s.memory) >>= free_stored a (i + 1) left
]

-- LIST_REMOVE; to unlink what is on another list corrupts both.
abbrev pub remove_share : ℕ → Shares → Run
remove_share p s =
    if contains p s.shares_list
    then ok (record s { shares_list = erase p s.shares_list })
    else fault

unfoldable pub free_share : KernelHeap → ℕ → Shares → Run
free_share h p s = acquire_shareslock s >>= remove_share p >>= release_shareslock >>= λ t.
    let a = (t.share p).frames_storage in
    (if (t.share p).references == 1 then free_stored a 0 (t.storage a).length t else ok t) >>= λ u.
    on_memory u (h.kfree a u.memory) >>= λ v. on_memory v (h.kfree p v.memory)
