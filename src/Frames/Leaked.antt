-- ===== src/Frames/Leaked.antt =====
-- kern/mem/memory_manager.c: map_frame on a page that holds a frame without being present.
use fos_operational_system_f.Common.{ℕ, ◌+◌, ◌≡◌, ◌≢◌, refl, true, false, Option, arith}
use fos_operational_system_f.Common.Outcome.{ok}
use fos_operational_system_f.Mmu.{has_bit, perm_present}
use fos_operational_system_f.Frames.State.{Memory, slot, pdx}
use fos_operational_system_f.Frames.Table.{
  entry_frame, available_bits, holds_frame, construct_entry,
}
use fos_operational_system_f.Frames.Map.{KernelHeap, link_frame, map_in_table, map_frame}
use fos_operational_system_f.Frames.Valid.{
  FramesValid, holders, holds_one, holders-update, construct_entry_lem,
}

-- From a valid state, map_frame of another frame on a page that holds the frame `g` but is not
-- present overwrites the entry and leaves the count of `g` alone, which is then one more than
-- there are references to `g`: unmapping them all does not give it back.
map_frame-leak :
    (h : KernelHeap) (base : ℕ → ℕ) (n : ℕ) (o : Option ℕ) (dir f g va perm : ℕ) (m : Memory)
    → FramesValid base n o m
    → m.has_table dir (pdx va) ≡ true
    → holds_frame (m.entries (slot dir va)) ≡ true
    → entry_frame (m.entries (slot dir va)) ≡ g
    → has_bit perm_present (m.entries (slot dir va)) ≡ false
    → f ≢ g
    → (k : Memory) × (map_frame h dir f va perm m ≡ ok k)
      × ((k.frames_info g).references ≡ base g + holders k.entries g n + 1)
      × (k.free_frame_list ≡ m.free_frame_list)
unfolding map_frame map_in_table link_frame holds_one
map_frame-leak h base n o dir f g va perm m v table held frame absent ne =
    let s = slot dir va in
    let e = construct_entry f (available_bits (m.entries s)) perm in
    let c = construct_entry_lem f (available_bits (m.entries s)) perm in
    (
      link_frame dir f va perm m,
      ground (arith, table, absent),
      ground (
        arith,
        v.counted g,
        holders-update m.entries s e g n (v.inside s held),
        held,
        frame,
        c,
        ne,
      ),
      refl,
    )
