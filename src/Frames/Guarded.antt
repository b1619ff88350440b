-- ===== src/Frames/Guarded.antt =====
-- kern/mem/paging_helpers.c, kern/proc/user_environment.c: pt_set_page_permissions takes the
-- present bit off the guard page of a kernel stack, and what create_user_kern_stack maps then.
use fos_operational_system_f.Common.{
  ℕ, suc, ◌+◌, ◌-◌, ◌*◌, ◌/◌, ◌%◌, ◌^◌, ◌≤◌, ◌<◌, ◌≡◌, ◌≢◌, refl, subst, ◌∙◌, inl, inr, true, false,
  Option, none, length, arith,
}
use native.Mathlib.Decide.{ℕ_discrete}
use fos_operational_system_f.Common.Outcome.{ok}
use fos_operational_system_f.Mmu.{page_size, has_bit, perm_present, perm_buffered}
use fos_operational_system_f.Frames.State.{Memory, slot, pdx, set_entry}
use fos_operational_system_f.Frames.Table.{
  entry_frame, holds_frame, bits_or, bits_clear, pt_set_page_permissions,
}
use fos_operational_system_f.Frames.Map.{KernelHeap}
use fos_operational_system_f.Frames.Bits.{bits_or_none, bits_clear_none}
use fos_operational_system_f.Frames.Valid.{FramesValid, holds_one, counted_update}
use fos_operational_system_f.Frames.Stack.{kernel_stack_size, create_user_kern_stack}
use fos_operational_system_f.Frames.Stacked.{Mappables, map_stack_pages_lem}

pub bits_clear_present : (e : ℕ) → e < 2 ^ 32 → bits_clear 32 (bits_or 32 e 0) 1 ≡ e - e % 2
unfolding bits_clear
bits_clear_present e lt =
    rw (bits_or_none 32 e lt) (ground (arith, bits_clear_none 31 (e / 2) (omega (arith, lt))))

-- An entry that still holds its frame may change otherwise.
pub set_entry-FramesValid :
    (base : ℕ → ℕ) (n : ℕ) (o : Option ℕ) (m : Memory) (s e : ℕ)
    → FramesValid base n o m
    → holds_frame (m.entries s) ≡ true
    → holds_frame e ≡ true
    → entry_frame e ≡ entry_frame (m.entries s)
    → has_bit perm_buffered e ≡ false
    → FramesValid base n o (set_entry m s e)
unfolding holds_one
set_entry-FramesValid base n o m s e v held holds frame plain = record {
  counted =
      counted_update base n s e m.entries (λ g. (m.frames_info g).references)
        (λ g. (m.frames_info g).references) (v.inside s held) v.counted
        (λ g. ground (arith, held, holds, frame));
  inside = λ t h. elim (ℕ_discrete s t) [
    | yes q ↦ subst (λ t. t < n) q (v.inside s held)
    | no ne ↦ v.inside t (ground (arith, h, ne))
  ];
  real = λ t h. ground (arith, h, frame, v.real s held, v.real t);
  unbuffered = λ t. ground (arith, plain, v.unbuffered t);
  small = v.small;
  distinct = v.distinct;
  unused = v.unused;
  free_real = v.free_real;
  complete = v.complete;
  transit = v.transit;
}

-- Taking the present bit off a page that holds a frame other than 0 keeps the state valid: the
-- page still holds its frame.
pub pt_set_page_permissions_lem :
    (base : ℕ → ℕ) (n : ℕ) (o : Option ℕ) (m : Memory) (dir va : ℕ)
    → FramesValid base n o m
    → m.has_table dir (pdx va) ≡ true
    → m.entries (slot dir va) < 2 ^ 32
    → 0 < entry_frame (m.entries (slot dir va))
    → (k : Memory) × (pt_set_page_permissions dir va 0 perm_present m ≡ ok k)
      × (k ≡ set_entry m (slot dir va) (m.entries (slot dir va) - m.entries (slot dir va) % 2))
      × FramesValid base n o k
unfolding pt_set_page_permissions holds_frame
pt_set_page_permissions_lem base n o m dir va v table lt frame =
    let e = m.entries (slot dir va) in
    let same : bits_clear 32 (bits_or 32 e 0) 1 ≡ e - e % 2 = bits_clear_present e lt in
    (
      set_entry m (slot dir va) (e - e % 2),
      rw (table, same) refl,
      refl,
      set_entry-FramesValid base n o m (slot dir va) (e - e % 2) v (ground (arith, frame))
          (ground (arith, frame)) (ground (arith, frame))
          (ground (arith, v.unbuffered (slot dir va))),
    )

guard-Mappables :
    (n dir va count e : ℕ) (m : Memory)
    → Mappables n dir (va + page_size) count m
    → Mappables n dir (va + page_size) count (set_entry m (slot dir va) e)
guard-Mappables n dir va count e m p = record {
  inside = p.inside;
  tables = p.tables;
  pages = λ i lt.
      let ne : slot dir va ≢ slot dir (va + page_size + suc i * page_size) =
        λ q. omega (arith, q) in
      elim (p.pages i lt) [
        | inl q ↦ inl (ground (arith, q, ne))
        | inr q ↦ inr (ground (arith, q, ne))
      ];
}

-- When kmalloc has given create_user_kern_stack the eight pages from `va` up, in a valid state
-- with eight frames free, with the guard page on a frame other than 0 and with tables for the ten
-- pages from `va` up, each of which is present or holds nothing, the function returns `va` in a
-- valid state. The guard page is not present, the page above it is as kmalloc left it, and the
-- eight pages above that are present: the last two of them lie behind the stack.
pub create_user_kern_stack_lem :
    (h : KernelHeap) (base : ℕ → ℕ) (n dir va : ℕ) (m a : Memory)
    → h.kmalloc kernel_stack_size m ≡ ok (va, a)
    → FramesValid base n none a
    → 8 ≤ length a.free_frame_list
    → a.has_table dir (pdx va) ≡ true
    → a.entries (slot dir va) < 2 ^ 32
    → 0 < entry_frame (a.entries (slot dir va))
    → Mappables n dir (va + page_size) 8 a
    → (k : Memory) × (create_user_kern_stack h dir m ≡ ok (va, k))
      × (has_bit perm_present (k.entries (slot dir va)) ≡ false)
      × (k.entries (slot dir (va + page_size)) ≡ a.entries (slot dir (va + page_size)))
      × ((i : ℕ)
          → i < 8
          → has_bit perm_present (k.entries (slot dir (va + (2 + i) * page_size))) ≡ true)
      × FramesValid base n none k
unfolding create_user_kern_stack
create_user_kern_stack_lem h base n dir va m a call v enough table lt frame p =
    let (b, clear, same, w) = pt_set_page_permissions_lem base n none a dir va v table lt frame in
    let e = a.entries (slot dir va) - a.entries (slot dir va) % 2 in
    let c = set_entry a (slot dir va) e in
    let q = guard-Mappables n dir va 8 e a p in
    let (k, loop, s) =
      map_stack_pages_lem h base n dir (va + page_size) 8 c (subst (FramesValid base n none) same w)
        enough q in
    let apart : slot dir va ≢ slot dir (va + page_size) = λ q. omega (arith, q) in
    (
      k,
      rw (call, clear, same, loop) refl,
      rw (s.others (slot dir va) (inl (omega arith))) (ground arith),
      s.others (slot dir (va + page_size)) (inl (omega arith)) ∙ ground (arith, apart),
      λ i il.
          subst (λ x. has_bit perm_present (k.entries (slot dir x)) ≡ true)
            {x = va + page_size + suc i * page_size} (omega arith) (s.present i il),
      s.valid,
    )
