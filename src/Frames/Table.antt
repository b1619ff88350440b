-- ===== src/Frames/Table.antt =====
-- kern/mem/memory_manager.c: page table entries, and what they hold.
use fos_operational_system_f.Common.{
  ℕ, zero, suc, ◌+◌, ◌*◌, ◌/◌, ◌%◌, Bool, ◌||◌, ◌&&◌, not, Option, none, some, ◌==◌, ltb,
  if◌then◌else◌, update,
}
use fos_operational_system_f.Common.Outcome.{Outcome, ok, panic}
use fos_operational_system_f.Mmu.{page_size, perm_present, perm_buffered, has_bit, set_bit}
use fos_operational_system_f.Frames.State.{Memory, Run, slot, pdx}

-- `a | b` on numbers of `w` bits.
unfoldable pub bits_or : ℕ → ℕ → ℕ → ℕ
bits_or zero a b = 0
bits_or (suc w) a b =
    (if (a % 2 == 1) || (b % 2 == 1) then 1 else 0) + 2 * bits_or w (a / 2) (b / 2)

-- `a & ~b` on numbers of `w` bits.
unfoldable pub bits_clear : ℕ → ℕ → ℕ → ℕ
bits_clear zero a b = 0
bits_clear (suc w) a b =
    (if (a % 2 == 1) && not (b % 2 == 1) then 1 else 0) + 2 * bits_clear w (a / 2) (b / 2)

-- EXTRACT_ADDRESS, as a frame number
abbrev pub entry_frame : ℕ → ℕ
entry_frame e = e / page_size

-- e & PERM_AVAILABLE
abbrev pub available_bits : ℕ → ℕ
available_bits e = e / 0x200 % 8 * 0x200

-- Does the entry hold a frame, present or not?
unfoldable pub holds_frame : ℕ → Bool
holds_frame e = not (entry_frame e == 0) || has_bit perm_present e || has_bit perm_buffered e

-- CONSTRUCT_ENTRY(to_physical_address(f), available | perm | PERM_PRESENT)
unfoldable pub construct_entry : ℕ → ℕ → ℕ → ℕ
construct_entry f available perm = f * page_size + set_bit perm_present (bits_or 12 available perm)

-- get_frame_info: `none` where no table exists or nothing is held, and to_frame_info's panic.
unfoldable pub get_frame_info : ℕ → ℕ → Memory → Outcome Memory (Option ℕ)
get_frame_info dir va m =
    let e = m.entries (slot dir va) in
    if m.has_table dir (pdx va) && holds_frame e
    then (if ltb (entry_frame e) m.number_of_frames then ok (some (entry_frame e)) else panic)
    else ok none

-- pt_set_page_permissions at any masks.
unfoldable pub pt_set_page_permissions : ℕ → ℕ → ℕ → ℕ → Memory → Run
pt_set_page_permissions dir va set clear m =
    let s = slot dir va in
    if m.has_table dir (pdx va)
    then ok (record m {
      entries = update m.entries s (bits_clear 32 (bits_or 32 (m.entries s) set) clear);
    })
    else panic
