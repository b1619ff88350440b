-- ===== src/Mmu.antt =====
-- inc/mmu.h and inc/types.h: page size, rounding, the bits of a page table entry.
-- A mask of one bit is its power of two; `e & m` is read by division, `e |= m` adds the missing
-- bit and `e &= ~m` takes it off, which is what the C operators do at such a mask.
use fos_operational_system_f.Common.{
  ℕ, ◌+◌, ◌-◌, ◌/◌, ◌%◌, ◌^◌, ◌≤◌, ◌<◌, ◌≡◌, Bool, true, false, arith, ◌==◌, if◌then◌else◌,
}

abbrev pub page_size : ℕ
page_size = 4096

abbrev pub perm_present : ℕ
perm_present = 0x001

abbrev pub perm_writeable : ℕ
perm_writeable = 0x002

abbrev pub perm_user : ℕ
perm_user = 0x004

abbrev pub perm_used : ℕ
perm_used = 0x020

abbrev pub perm_modified : ℕ
perm_modified = 0x040

abbrev pub perm_buffered : ℕ
perm_buffered = 0x200

abbrev pub perm_uhpage : ℕ
perm_uhpage = 0x400

-- ROUNDDOWN on a uint32.
unfoldable pub rounddown : ℕ → ℕ → ℕ
rounddown a n = a - a % n

-- ROUNDUP adds n - 1 in 32 bits first, so it wraps at the top of the range.
unfoldable pub roundup : ℕ → ℕ → ℕ
unfolding rounddown
roundup a n = rounddown ((a + n - 1) % 2 ^ 32) n

-- (e & m) != 0
abbrev pub has_bit : ℕ → ℕ → Bool
has_bit m e = e / m % 2 == 1

-- e |= m
abbrev pub set_bit : ℕ → ℕ → ℕ
set_bit m e = if has_bit m e then e else e + m

-- e &= ~m
abbrev pub clear_bit : ℕ → ℕ → ℕ
clear_bit m e = if has_bit m e then e - m else e

pub roundup_bounds :
    (a : ℕ) → a ≤ 0xFFFFF000 → (a ≤ roundup a page_size) × (roundup a page_size < a + page_size)
unfolding roundup
roundup_bounds a h = omega arith

pub roundup-mod : (a : ℕ) → roundup a page_size % page_size ≡ 0
unfolding roundup
roundup-mod a = omega arith

pub clear_used_other :
    (e : ℕ) → has_bit perm_modified (clear_bit perm_used e) ≡ has_bit perm_modified e
clear_used_other e = ground arith

pub clear_used : (e : ℕ) → has_bit perm_used (clear_bit perm_used e) ≡ false
clear_used e = ground arith

pub set_used : (e : ℕ) → has_bit perm_used (set_bit perm_used e) ≡ true
set_used e = ground arith
