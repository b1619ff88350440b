-- ===== src/Frames/Refines.antt =====
-- kern/mem/paging_helpers.c, kern/mem/memory_manager.c: alloc_page and unmap_frame against a
-- memory manager that only knows which page holds which frame.
use fos_operational_system_f.Common.{
  ℕ, zero, suc, ◌<◌, ◌≡◌, ◌≢◌, refl, ap, sym, subst, ◌∙◌, ◌⊎◌, inl, inr, Bool, true, false, Option,
  none, some, List, [], ◌∷◌, arith, if◌then◌else◌, update, contains, Bool-cases,
}
use native.Mathlib.Decide.{ℕ_discrete}
use fos_operational_system_f.Common.Outcome.{ok, panic, ◌>>=◌}
use fos_operational_system_f.Mmu.{has_bit, perm_buffered}
use fos_operational_system_f.Frames.State.{Memory, Run, slot, pdx}
use fos_operational_system_f.Frames.Table.{entry_frame, holds_frame}
use fos_operational_system_f.Frames.Map.{KernelHeap, unmap_frame, alloc_page}
use fos_operational_system_f.Frames.Valid.{
  FramesValid, holders, holds_one, holds-positive, available_bits-empty,
}
use fos_operational_system_f.Frames.Unmapped.{unmap_frame_lem}
use fos_operational_system_f.Frames.Paged.{alloc_page_lem}

-- The frame of each page, by its slot.
abbrev pub Pages : Type 0
Pages = ℕ → Option ℕ

abbrev pub frame_in : ℕ → Option ℕ
frame_in e = if holds_frame e then some (entry_frame e) else none

abbrev pub pages : Memory → Pages
pages m s = frame_in (m.entries s)

pub data Command : Type 0 where
  allocate release : ℕ → ℕ → Command

-- Nothing but the pages and the references in `base` keeps a frame in use.
pub record Unused (base : ℕ → ℕ) (count : ℕ) (p : Pages) (f : ℕ) : Type 0 where
  pub exists : f < count
  pub no_base : base f ≡ 0
  pub no_page : (s : ℕ) → p s ≢ some f

-- What one command may do: `none` where there is no memory.
pub data Step (base : ℕ → ℕ) (count : ℕ) (p : Pages) : Command → Option Pages → Type 0 where
  mapped : {dir va f : ℕ} → p (slot dir va) ≡ some f → Step base count p (allocate dir va) (some p)
  given :
      {dir va f : ℕ} {q : Pages}
      → p (slot dir va) ≡ none
      → Unused base count p f
      → ((s : ℕ) → q s ≡ update p (slot dir va) (some f) s)
      → Step base count p (allocate dir va) (some q)
  no_memory :
      {dir va : ℕ}
      → p (slot dir va) ≡ none
      → ((f : ℕ) → ¬ (Unused base count p f))
      → Step base count p (allocate dir va) none
  released :
      {dir va : ℕ} {q : Pages}
      → ((s : ℕ) → q s ≡ update p (slot dir va) none s)
      → Step base count p (release dir va) (some q)

-- The commands on the page tables, with the permissions of a page.
abbrev pub execute : KernelHeap → (ℕ → ℕ) → Command → Memory → Run
execute h perms (allocate dir va) m = alloc_page h dir va (perms va) m >>= λ r. ok r.1
execute h perms (release dir va) m = unmap_frame dir va m

abbrev pub place : Command → ℕ × ℕ
place (allocate dir va) = (dir, va)
place (release dir va) = (dir, va)

-- One command after the other, up to one that finds no memory.
pub data Steps (base : ℕ → ℕ) (count : ℕ) : Pages → List Command → Option Pages → Type 0 where
  done : {p : Pages} → Steps base count p [] (some p)
  next :
      {p q : Pages} {c : Command} {l : List Command} {r : Option Pages}
      → Step base count p c (some q)
      → Steps base count q l r
      → Steps base count p (c ∷ l) r
  stop :
      {p : Pages} {c : Command} {l : List Command}
      → Step base count p c none
      → Steps base count p (c ∷ l) none

unfoldable pub execute_all : KernelHeap → (ℕ → ℕ) → List Command → Memory → Run
execute_all h perms [] m = ok m
execute_all h perms (c ∷ l) m = execute h perms c m >>= execute_all h perms l

no_holders : (m : Memory) (f n : ℕ) → ((s : ℕ) → pages m s ≢ some f) → holders m.entries f n ≡ 0
unfolding holders holds_one
no_holders m f zero h = refl
no_holders m f (suc n) h = ground (arith, h n, no_holders m f n h)

-- A frame that is on the free list is unused, and an unused frame is on it.
free-Unused :
    (base : ℕ → ℕ) (n : ℕ) (m : Memory) (f : ℕ)
    → FramesValid base n none m
    → contains f m.free_frame_list ≡ true
    → Unused base m.number_of_frames (pages m) f
free-Unused base n m f v c =
    let z = v.unused f c in
    record {
      exists = v.free_real f c;
      no_base = omega (arith, v.counted f, z);
      no_page = λ s e. elim (Bool-cases (holds_frame (m.entries s))) [
        | inr h ↦ absurd (ground (arith, e, h))
        | inl h ↦
            let one = holds-positive m.entries s f n (v.inside s h) h (ground (arith, e, h)) in
            absurd (omega (arith, one, z, v.counted f))
      ];
    }

Unused-free :
    (base : ℕ → ℕ) (n : ℕ) (m : Memory) (f : ℕ)
    → FramesValid base n none m
    → Unused base m.number_of_frames (pages m) f
    → contains f m.free_frame_list ≡ true
Unused-free base n m f v u =
    elim (v.complete f u.exists
      (omega (arith, v.counted f, u.no_base, no_holders m f n u.no_page))) [
        | inl c ↦ c
        | inr e ↦ absurd (ground (arith, e))
      ]

-- The page of the command has a slot below `n`, and its directory has the table.
pub record Ready (n : ℕ) (perms : ℕ → ℕ) (c : Command) (has_table : ℕ → ℕ → Bool) : Type 0 where
  pub inside : slot (place c).0 (place c).1 < n
  pub table : has_table (place c).0 (pdx (place c).1) ≡ true
  pub plain : has_bit perm_buffered (perms (place c).1) ≡ false

unfoldable pub AllReady : ℕ → (ℕ → ℕ) → List Command → (ℕ → ℕ → Bool) → Type 0
AllReady n perms [] t = Unit {0}
AllReady n perms (c ∷ l) t = Ready n perms c t × AllReady n perms l t

module _ (h : KernelHeap) (base : ℕ → ℕ) (n : ℕ) (perms : ℕ → ℕ) where
  -- What a command that succeeds leaves.
  record Done (c : Command) (m k : Memory) : Type 0 where
    called : execute h perms c m ≡ ok k
    step : Step base m.number_of_frames (pages m) c (some (pages k))
    valid : FramesValid base n none k
    tables : k.has_table ≡ m.has_table
    frames : k.number_of_frames ≡ m.number_of_frames

  allocate_lem :
      (dir va : ℕ) (m : Memory)
      → FramesValid base n none m
      → Ready n perms (allocate dir va) m.has_table
      → ((execute h perms (allocate dir va) m ≡ panic)
          × Step base m.number_of_frames (pages m) (allocate dir va) none)
        ⊎ ((k : Memory) × Done (allocate dir va) m k)
  unfolding contains
  allocate_lem dir va m v r =
      elim (alloc_page_lem h base n dir va (perms va) m v r.inside r.plain r.table) [
        | inl (held, call) ↦ inr (
          m,
          record {
            called = rw (call) refl;
            step = mapped {f = entry_frame (m.entries (slot dir va))} (ground (arith, held));
            valid = v;
            tables = refl;
            frames = refl;
          },
        )
        | inr (inl (free, z, call)) ↦ inl (
          rw (call) refl,
          no_memory (ground (arith, free)) (λ f u. ground (arith, Unused-free base n m f v u, z)),
        )
        | inr (inr (f, k, free, call, o)) ↦ inr (
          k,
          record {
            called = rw (call) refl;
            step =
                given {f = f} (ground (arith, free))
                  (free-Unused base n m f v (rw (o.taken) (ground arith)))
                  (λ s. elim (ℕ_discrete (slot dir va) s) [
                    | yes e ↦ ground (arith, e, o.maps.holds, o.maps.frame)
                    | no ne ↦ ground (arith, ne, o.maps.others s ne)
                  ]);
            valid = o.maps.valid;
            tables = o.maps.tables;
            frames = o.maps.frames;
          },
        )
      ]

  release_lem :
      (dir va : ℕ) (m : Memory)
      → FramesValid base n none m
      → Ready n perms (release dir va) m.has_table
      → (k : Memory) × Done (release dir va) m k
  release_lem dir va m v r =
      let (k, call, d) = unmap_frame_lem base n none m dir va v r.table in
      let e = available_bits-empty (m.entries (slot dir va)) (v.unbuffered (slot dir va)) in
      elim d [
        | inl (free, same) ↦ (
          m,
          record {
            called = call ∙ ap ok same;
            step = released (λ s. elim (ℕ_discrete (slot dir va) s) [
              | yes e ↦ ground (arith, e, free)
              | no ne ↦ ground (arith, ne)
            ]);
            valid = v;
            tables = refl;
            frames = refl;
          },
        )
        | inr (held, entries, tables, frames, w, _) ↦ (
          k,
          record {
            called = call;
            step = released (λ s. ap (λ x. frame_in (x s)) entries ∙ ground (arith, e.0));
            valid = w;
            tables = tables;
            frames = frames;
          },
        )
      ]

  execute_lem :
      (c : Command) (m : Memory)
      → FramesValid base n none m
      → Ready n perms c m.has_table
      → ((execute h perms c m ≡ panic) × Step base m.number_of_frames (pages m) c none)
        ⊎ ((k : Memory) × Done c m k)
  execute_lem (allocate dir va) m v r = allocate_lem dir va m v r
  execute_lem (release dir va) m v r = inr (release_lem dir va m v r)

  -- From a valid state, a list of allocations and releases of pages whose directories have the
  -- tables refines the abstract memory manager: it panics just where a page that holds nothing
  -- asks for a frame when none is unused, and otherwise gives each page that holds nothing a
  -- frame that no page and no other reference uses, and takes it away again on release, with all
  -- other pages as they were; a list that is done leaves a valid state.
  pub execute_all_lem :
      (l : List Command) (m : Memory)
      → FramesValid base n none m
      → AllReady n perms l m.has_table
      → ((execute_all h perms l m ≡ panic) × Steps base m.number_of_frames (pages m) l none)
        ⊎ ((k : Memory) × (execute_all h perms l m ≡ ok k)
            × Steps base m.number_of_frames (pages m) l (some (pages k))
            × FramesValid base n none k)
  unfolding execute_all AllReady
  execute_all_lem [] m v r = inr (m, refl, done, v)
  execute_all_lem (c ∷ l) m v r = elim (execute_lem c m v r.0) [
    | inl (call, s) ↦ inl (rw (call) refl, stop s)
    | inr (k, d) ↦
        let rest = execute_all_lem l k d.valid (subst (AllReady n perms l) (sym d.tables) r.1) in
        elim rest [
          | inl (call, s) ↦ inl (
            rw (d.called) call,
            next d.step (subst (λ x. Steps base x (pages k) l none) d.frames s),
          )
          | inr (j, call, s, w) ↦ inr (
            j,
            rw (d.called) call,
            next d.step (subst (λ x. Steps base x (pages k) l (some (pages j))) d.frames s),
            w,
          )
        ]
  ]
