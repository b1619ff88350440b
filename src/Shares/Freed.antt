-- ===== src/Shares/Freed.antt =====
-- kern/mem/shared_memory_manager.c: free_share of the last reference runs off its array.
use fos_operational_system_f.Common.{
  ℕ, zero, suc, ◌+◌, ◌≤◌, ◌<◌, ◌≡◌, refl, inl, inr, true, false, some, ◌∷◌, arith, contains, erase,
  Bool-cases,
}
use fos_operational_system_f.Common.Outcome.{fault}
use fos_operational_system_f.Frames.State.{free_frame, initialize_frame_info}
use fos_operational_system_f.Frames.Map.{KernelHeap}
use fos_operational_system_f.Shares.{Shares, acquire_shareslock, release_shareslock}
use fos_operational_system_f.Shares.Freeing.{free_stored, free_share}

free_stored_fault :
    (a i left : ℕ) (s : Shares)
    → ((j : ℕ) → i ≤ j → j < i + left → (f : ℕ) × ((s.storage a).frames j ≡ some f))
    → free_stored a i left s ≡ fault
unfolding free_stored free_frame
free_stored_fault a i zero s stored = refl
free_stored_fault a i (suc left) s stored =
    let (f, there) = stored i (omega arith) (omega arith) in
    let freed : Shares = record s {
      memory =
          initialize_frame_info (record s.memory { free_frame_list = f ∷ s.memory.free_frame_list })
            f;
    } in
    let next : free_stored a (i + 1) left freed ≡ fault =
      free_stored_fault a (i + 1) left freed
        (λ j x y. stored j (omega (arith, x)) (omega (arith, y))) in
    elim (Bool-cases (contains f s.memory.free_frame_list)) [
      | inl c ↦ ground (arith, there, c)
      | inr c ↦ ground (arith, there, c, next)
    ]

-- free_share of an object on the list whose only reference is left and whose array has a frame in
-- each of its elements, as create_shared_object fills it, is undefined: it reads on behind the
-- array, which has no null pointer at its end, unless freeing a frame corrupts the free list before.
pub free_share_lem :
    (h : KernelHeap) (p : ℕ) (s : Shares)
    → s.shareslock ≡ false
    → contains p s.shares_list ≡ true
    → (s.share p).references ≡ 1
    → ((j : ℕ)
        → j < (s.storage (s.share p).frames_storage).length
        → (f : ℕ) × ((s.storage (s.share p).frames_storage).frames j ≡ some f))
    → free_share h p s ≡ fault
unfolding free_share acquire_shareslock release_shareslock
free_share_lem h p s unlocked there one stored =
    let t : Shares = record s { shares_list = erase p s.shares_list; shareslock = false } in
    let a = (s.share p).frames_storage in
    rw (unlocked, there, one)
      (rw (free_stored_fault a 0 (s.storage a).length t (λ j x y. stored j (omega (arith, y))))
        refl)
