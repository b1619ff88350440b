-- ===== src/Frames/Stacked.antt =====
-- kern/proc/user_environment.c: which pages create_user_kern_stack maps.
use fos_operational_system_f.Common.{
  ℕ, zero, suc, ◌+◌, ◌*◌, ◌≤◌, ◌<◌, ◌≡◌, refl, ap, sym, subst, ◌∙◌, ◌⊎◌, inl, inr, true, false,
  none, some, length, arith,
}
use fos_operational_system_f.Common.Outcome.{ok}
use fos_operational_system_f.Mmu.{page_size, has_bit, perm_present}
use fos_operational_system_f.Frames.State.{Memory, slot, pdx}
use fos_operational_system_f.Frames.Table.{holds_frame}
use fos_operational_system_f.Frames.Map.{KernelHeap}
use fos_operational_system_f.Frames.Valid.{FramesValid}
use fos_operational_system_f.Frames.Allocated.{allocate_frame_lem}
use fos_operational_system_f.Frames.Mapped.{MapsTo, fresh, map_frame_lem}
use fos_operational_system_f.Frames.Stack.{stack_permissions, map_stack_pages}

-- The `count` pages behind that of `va` can be mapped.
pub record Mappables (n dir va count : ℕ) (m : Memory) : Type 0 where
  pub inside : (i : ℕ) → i < count → slot dir (va + suc i * page_size) < n
  pub tables : (i : ℕ) → i < count → m.has_table dir (pdx (va + suc i * page_size)) ≡ true
  pub pages :
      (i : ℕ)
      → i < count
      → (holds_frame (m.entries (slot dir (va + suc i * page_size))) ≡ false)
        ⊎ (has_bit perm_present (m.entries (slot dir (va + suc i * page_size))) ≡ true)

-- What the loop leaves.
pub record Stacked (base : ℕ → ℕ) (n dir va count : ℕ) (m k : Memory) : Type 0 where
  pub valid : FramesValid base n none k
  pub present :
      (i : ℕ)
      → i < count
      → has_bit perm_present (k.entries (slot dir (va + suc i * page_size))) ≡ true
  pub others : (s : ℕ) → (s ≤ slot dir va) ⊎ (slot dir va + count < s) → k.entries s ≡ m.entries s

-- The pages behind the first are as they were after the first is mapped.
shift-Mappables :
    (base : ℕ → ℕ) (n dir f va left : ℕ) (m k j : Memory)
    → Mappables n dir va (suc left) m
    → k.entries ≡ m.entries
    → k.has_table ≡ m.has_table
    → MapsTo base n dir f (va + page_size) k j
    → Mappables n dir (va + page_size) left j
shift-Mappables base n dir f va left m k j p entries tables r = record {
  inside = λ i lt. subst (λ x. slot dir x < n) (shift i) (p.inside (suc i) (omega (arith, lt)));
  tables = λ i lt.
      subst (λ x. j.has_table dir (pdx x) ≡ true) (shift i)
        (ap (λ t. t dir (pdx (va + suc (suc i) * page_size))) (r.tables ∙ tables)
          ∙ p.tables (suc i) (omega (arith, lt)));
  pages = λ i lt.
      let same : j.entries (slot dir (va + page_size + suc i * page_size))
          ≡ m.entries (slot dir (va + suc (suc i) * page_size)) =
        r.others (slot dir (va + page_size + suc i * page_size)) (λ e. absurd (omega (arith, e)))
        ∙ ap (λ x. x (slot dir (va + page_size + suc i * page_size))) entries
        ∙ ap (λ x. m.entries (slot dir x)) (sym (shift i)) in
      elim (p.pages (suc i) (omega (arith, lt))) [
        | inl e ↦ inl (rw (same) e)
        | inr e ↦ inr (rw (same) e)
      ];
}
  where
    shift : (i : ℕ) → va + suc (suc i) * page_size ≡ va + page_size + suc i * page_size
    shift i = omega arith

shift-Stacked :
    (base : ℕ → ℕ) (n dir f va left : ℕ) (m k j g : Memory)
    → k.entries ≡ m.entries
    → MapsTo base n dir f (va + page_size) k j
    → Stacked base n dir (va + page_size) left j g
    → Stacked base n dir va (suc left) m g
shift-Stacked base n dir f va left m k j g entries r s = record {
  valid = s.valid;
  present = first_or_later;
  others = λ t h.
      s.others t (elim h [ inl a ↦ inl (omega (arith, a)) | inr a ↦ inr (omega (arith, a)) ])
      ∙ r.others t (λ e. elim h [ inl a ↦ omega (arith, a, e) | inr a ↦ omega (arith, a, e) ])
      ∙ ap (λ x. x t) entries;
}
  where
    first_or_later :
        (i : ℕ)
        → i < suc left
        → has_bit perm_present (g.entries (slot dir (va + suc i * page_size))) ≡ true
    first_or_later zero lt =
        let same : slot dir (va + 1 * page_size) ≡ slot dir (va + page_size) = omega arith in
        let old : g.entries (slot dir (va + page_size)) ≡ j.entries (slot dir (va + page_size)) =
          s.others (slot dir (va + page_size)) (inl (omega arith)) in
        rw (same, old) r.present
    first_or_later (suc i) lt =
        subst (λ x. has_bit perm_present (g.entries (slot dir x)) ≡ true)
          {x = va + page_size + suc i * page_size} (omega arith) (s.present i (omega (arith, lt)))

-- From a valid state with at least `left` frames free, the loop of create_user_kern_stack never
-- fails, provided that each of the `left` pages behind the first has a table and is present or
-- holds nothing. Those pages are then present, no other entry is changed, and the state is valid.
pub map_stack_pages_lem :
    (h : KernelHeap) (base : ℕ → ℕ) (n dir va left : ℕ) (m : Memory)
    → FramesValid base n none m
    → left ≤ length m.free_frame_list
    → Mappables n dir va left m
    → (k : Memory) × (map_stack_pages h dir va left m ≡ ok k) × Stacked base n dir va left m k
unfolding map_stack_pages
map_stack_pages_lem h base n dir va zero m v enough p = (
  m,
  refl,
  record { valid = v; present = λ i lt. absurd (omega (arith, lt)); others = λ s _. refl },
)
map_stack_pages_lem h base n dir va (suc left) m v enough p = elim (allocate_frame_lem base n m v) [
  | inl (z, _) ↦ absurd (ground (arith, enough, z))
  | inr (f, k, q, l, entries, tables, frames, w) ↦
      let t = w.transit f refl in
      let lt : slot dir (va + page_size) < n = ground (arith, p.inside 0 (omega arith)) in
      let (j, call, more, r) =
        map_frame_lem base n dir f (va + page_size) stack_permissions lt h (some f) k w t.2
          (fresh refl) (omega (arith, t.0)) (ground arith)
          (rw (tables) (ground (arith, p.tables 0 (omega arith))))
          (rw (entries) (ground (arith, p.pages 0 (omega arith)))) in
      let next = shift-Mappables base n dir f va left m k j p entries tables r in
      let count : left ≤ length j.free_frame_list = ground (arith, more, enough, l) in
      let (g, rest, s) =
        map_stack_pages_lem h base n dir (va + page_size) left j r.valid count next in
      (g, rw (q, call) rest, shift-Stacked base n dir f va left m k j g entries r s)
]
