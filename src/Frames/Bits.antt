-- ===== src/Frames/Bits.antt =====
-- inc/mmu.h: single bits of a page table entry under `|` and `& ~`.
use fos_operational_system_f.Common.{
  ℕ, zero, suc, ◌/◌, ◌%◌, ◌^◌, ◌<◌, ◌≡◌, sym, ◌∙◌, refl, ap, ◌||◌, ◌&&◌, not, arith, ◌==◌,
  if◌then◌else◌,
}
use fos_operational_system_f.Frames.Table.{bits_or, bits_clear}

pub bits_or_none : (w a : ℕ) → a < 2 ^ w → bits_or w a 0 ≡ a
unfolding bits_or
bits_or_none zero a lt = ground (arith, lt)
bits_or_none (suc w) a lt =
    let half : a / 2 < 2 ^ w = omega (arith, lt) in ground (arith, bits_or_none w (a / 2) half)

pub bits_clear_none : (w a : ℕ) → a < 2 ^ w → bits_clear w a 0 ≡ a
unfolding bits_clear
bits_clear_none zero a lt = ground (arith, lt)
bits_clear_none (suc w) a lt =
    let half : a / 2 < 2 ^ w = omega (arith, lt) in ground (arith, bits_clear_none w (a / 2) half)

-- The bit `k`, and what is above the first `k` bits.
pub bit_at : ℕ → ℕ → ℕ
bit_at zero a = a % 2
bit_at (suc k) a = bit_at k (a / 2)

drop_bits : ℕ → ℕ → ℕ
drop_bits zero a = a
drop_bits (suc k) a = drop_bits k (a / 2)

half_or : (w a b : ℕ) → bits_or (suc w) a b / 2 ≡ bits_or w (a / 2) (b / 2)
unfolding bits_or
half_or w a b = ground arith

half_clear : (w a b : ℕ) → bits_clear (suc w) a b / 2 ≡ bits_clear w (a / 2) (b / 2)
unfolding bits_clear
half_clear w a b = ground arith

-- k + w
wide : ℕ → ℕ → ℕ
wide zero w = w
wide (suc k) w = suc (wide k w)

pub bit_at-bits_or :
    (w k a b : ℕ)
    → k < w
    → bit_at k (bits_or w a b) ≡ (if (bit_at k a == 1) || (bit_at k b == 1) then 1 else 0)
unfolding bits_or bit_at
bit_at-bits_or zero k a b lt = absurd (omega arith)
bit_at-bits_or (suc w) zero a b lt = ground arith
bit_at-bits_or (suc w) (suc k) a b lt =
    ap (bit_at k) (half_or w a b) ∙ bit_at-bits_or w k (a / 2) (b / 2) (omega arith)

pub bit_at-bits_clear :
    (w k a b : ℕ)
    → k < w
    → bit_at k (bits_clear w a b) ≡ (if (bit_at k a == 1) && not (bit_at k b == 1) then 1 else 0)
unfolding bits_clear bit_at
bit_at-bits_clear zero k a b lt = absurd (omega arith)
bit_at-bits_clear (suc w) zero a b lt = ground arith
bit_at-bits_clear (suc w) (suc k) a b lt =
    ap (bit_at k) (half_clear w a b) ∙ bit_at-bits_clear w k (a / 2) (b / 2) (omega arith)

drop_bits-bits_or :
    (k w a b : ℕ) → drop_bits k (bits_or (wide k w) a b) ≡ bits_or w (drop_bits k a) (drop_bits k b)
unfolding wide drop_bits
drop_bits-bits_or zero w a b = refl
drop_bits-bits_or (suc k) w a b =
    ap (drop_bits k) (half_or (wide k w) a b) ∙ drop_bits-bits_or k w (a / 2) (b / 2)

drop_bits-bits_clear :
    (k w a b : ℕ)
    → drop_bits k (bits_clear (wide k w) a b) ≡ bits_clear w (drop_bits k a) (drop_bits k b)
unfolding wide drop_bits
drop_bits-bits_clear zero w a b = refl
drop_bits-bits_clear (suc k) w a b =
    ap (drop_bits k) (half_clear (wide k w) a b) ∙ drop_bits-bits_clear k w (a / 2) (b / 2)

pub bit_at_zero : (e : ℕ) → bit_at 0 e ≡ e / 0x001 % 2
unfolding bit_at
bit_at_zero e = omega arith

pub bit_at_one : (e : ℕ) → bit_at 1 e ≡ e / 0x002 % 2
unfolding bit_at
bit_at_one e = omega arith

pub bit_at_nine : (e : ℕ) → bit_at 9 e ≡ e / 0x200 % 2
unfolding bit_at
bit_at_nine e = omega arith

pub bit_at_ten : (e : ℕ) → bit_at 10 e ≡ e / 0x400 % 2
unfolding bit_at
bit_at_ten e = omega arith

drop_bits_twelve : (e : ℕ) → drop_bits 12 e ≡ e / 4096
unfolding drop_bits
drop_bits_twelve e = omega arith

-- The permissions are the low bits of an entry, and the frame number is above them.
pub frame_bits_or : (e b : ℕ) → e < 2 ^ 32 → b < 4096 → bits_or 32 e b / 4096 ≡ e / 4096
unfolding wide
frame_bits_or e b lt low =
    let none_high : drop_bits 12 b ≡ 0 = drop_bits_twelve b ∙ omega (arith, low) in
    sym (drop_bits_twelve (bits_or 32 e b))
    ∙ drop_bits-bits_or 12 20 e b
    ∙ rw (none_high, drop_bits_twelve e) (bits_or_none 20 (e / 4096) (omega (arith, lt)))

pub frame_bits_clear : (e b : ℕ) → e < 2 ^ 32 → b < 4096 → bits_clear 32 e b / 4096 ≡ e / 4096
unfolding wide
frame_bits_clear e b lt low =
    let none_high : drop_bits 12 b ≡ 0 = drop_bits_twelve b ∙ omega (arith, low) in
    sym (drop_bits_twelve (bits_clear 32 e b))
    ∙ drop_bits-bits_clear 12 20 e b
    ∙ rw (none_high, drop_bits_twelve e) (bits_clear_none 20 (e / 4096) (omega (arith, lt)))

pub bits_or-lt : (w a b : ℕ) → bits_or w a b < 2 ^ w
unfolding bits_or
bits_or-lt zero a b = ground arith
bits_or-lt (suc w) a b = ground (arith, bits_or-lt w (a / 2) (b / 2))

pub bits_clear-lt : (w a b : ℕ) → bits_clear w a b < 2 ^ w
unfolding bits_clear
bits_clear-lt zero a b = ground arith
bits_clear-lt (suc w) a b = ground (arith, bits_clear-lt w (a / 2) (b / 2))
