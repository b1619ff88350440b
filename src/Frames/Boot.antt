-- ===== src/Frames/Boot.antt =====
-- kern/mem/memory_manager.c: initialize_paging puts the frames that are in use apart from the rest.
use fos_operational_system_f.Common.{
  ℕ, zero, suc, ◌+◌, ◌-◌, ◌≤◌, ◌<◌, ◌≡◌, refl, ap, sym, subst, ◌∙◌, inl, inr, Bool, true, false,
  ◌||◌, ◌&&◌, not, [], ◌∷◌, arith, ltb, leb, if◌then◌else◌, contains, Distinct, Bool-cases,
}
use fos_operational_system_f.Frames.State.{Memory, initialize_frame_info, set_references}

-- The loops over `left` frames from `i` on: mark them as in use, and put them on the free list.
unfoldable pub mark_used : ℕ → ℕ → Memory → Memory
mark_used i zero m = m
mark_used i (suc left) m = mark_used (i + 1) left (set_references m i 1)

unfoldable pub insert_free : ℕ → ℕ → Memory → Memory
insert_free i zero m = m
insert_free i (suc left) m =
    let n = initialize_frame_info m i in
    insert_free (i + 1) left (record n { free_frame_list = i ∷ n.free_frame_list })

-- initialize_paging, where `kernel_end` is the number of the first frame behind what boot_allocate_space
-- has given away. The page file is set up elsewhere.
unfoldable pub initialize_paging : ℕ → Memory → Memory
initialize_paging kernel_end m =
    let a = mark_used 0 3 (record m { free_frame_list = []; modified = 0 }) in
    let b = insert_free 3 (160 - 3) a in
    let c = mark_used 160 (256 - 160) b in
    let d = mark_used 256 (kernel_end - 256) c in
    insert_free kernel_end (m.number_of_frames - kernel_end) d

abbrev within : ℕ → ℕ → ℕ → Bool
within i left f = leb i f && ltb f (i + left)

mark_used_lem :
    (i left : ℕ) (m : Memory)
    → ((f : ℕ)
        → ((mark_used i left m).frames_info f).references
          ≡ (if within i left f then 1 else (m.frames_info f).references))
      × ((mark_used i left m).free_frame_list ≡ m.free_frame_list)
      × ((mark_used i left m).entries ≡ m.entries)
      × ((mark_used i left m).number_of_frames ≡ m.number_of_frames)
unfolding mark_used
mark_used_lem i zero m = (λ f. ground arith, refl, refl, refl)
mark_used_lem i (suc left) m =
    let (r, l, e, n) = mark_used_lem (i + 1) left (set_references m i 1) in
    (λ f. ground (arith, r f), l, e, n)

insert_free_lem :
    (i left : ℕ) (m : Memory)
    → Distinct m.free_frame_list
    → ((f : ℕ) → contains f m.free_frame_list ≡ true → f < i)
    → ((f : ℕ)
        → ((insert_free i left m).frames_info f).references
          ≡ (if within i left f then 0 else (m.frames_info f).references))
      × ((f : ℕ)
          → contains f (insert_free i left m).free_frame_list
            ≡ (within i left f || contains f m.free_frame_list))
      × Distinct (insert_free i left m).free_frame_list
      × ((insert_free i left m).entries ≡ m.entries)
      × ((insert_free i left m).number_of_frames ≡ m.number_of_frames)
unfolding insert_free contains
insert_free_lem i zero m d low = (λ f. ground arith, λ f. ground arith, d, refl, refl)
insert_free_lem i (suc left) m d low =
    let fresh : contains i m.free_frame_list ≡ false =
      elim (Bool-cases (contains i m.free_frame_list)) [
        | inr c ↦ c
        | inl c ↦ absurd (omega (arith, low i c))
      ] in
    let n = initialize_frame_info m i in
    let (r, c, u, e, k) =
      insert_free_lem (i + 1) left (record n { free_frame_list = i ∷ n.free_frame_list }) (fresh, d)
        (λ f h. ground (arith, h, low f)) in
    (λ f. ground (arith, r f), λ f. ground (arith, c f), u, e, k)

-- The frames that stay in use: the first three, the IO hole, and the kernel.
abbrev pub is_reserved : ℕ → ℕ → Bool
is_reserved kernel_end f = ltb f 3 || (leb 160 f && ltb f kernel_end)

-- On a machine of at least one megabyte that holds the kernel, whatever the page tables map:
-- initialize_paging gives the first three frames, the IO hole and the kernel one reference and
-- every other frame of the machine none, puts exactly those others on the free list, each once, and
-- changes no page table entry and no count behind the last frame.
pub initialize_paging_lem :
    (kernel_end : ℕ) (m : Memory)
    → 256 ≤ kernel_end
    → kernel_end ≤ m.number_of_frames
    → ((f : ℕ)
        → f < m.number_of_frames
        → ((initialize_paging kernel_end m).frames_info f).references
          ≡ (if is_reserved kernel_end f then 1 else 0))
      × ((f : ℕ)
          → m.number_of_frames ≤ f
          → ((initialize_paging kernel_end m).frames_info f).references
            ≡ (m.frames_info f).references)
      × ((f : ℕ)
          → contains f (initialize_paging kernel_end m).free_frame_list
            ≡ (ltb f m.number_of_frames && not (is_reserved kernel_end f)))
      × Distinct (initialize_paging kernel_end m).free_frame_list
      × ((initialize_paging kernel_end m).entries ≡ m.entries)
      × ((initialize_paging kernel_end m).number_of_frames ≡ m.number_of_frames)
unfolding initialize_paging contains
initialize_paging_lem kernel_end m lo hi =
    let start : Memory = record m { free_frame_list = []; modified = 0 } in
    let (ar, al, ae, an) = mark_used_lem 0 3 start in
    let a = mark_used 0 3 start in
    let empty : (f : ℕ) → contains f a.free_frame_list ≡ false = λ f. ap (contains f) al in
    let (br, bc, bd, be, bn) =
      insert_free_lem 3 157 a (subst Distinct (sym al) tt)
        (λ f h. absurd (ground (arith, empty f, h))) in
    let b = insert_free 3 157 a in
    let (cr, cl, ce, cn) = mark_used_lem 160 96 b in
    let c = mark_used 160 96 b in
    let (dr, dl, de, dn) = mark_used_lem 256 (kernel_end - 256) c in
    let d = mark_used 256 (kernel_end - 256) c in
    let list : d.free_frame_list ≡ b.free_frame_list = dl ∙ cl in
    let listed : (f : ℕ) → contains f d.free_frame_list ≡ within 3 157 f =
      λ f. ap (contains f) list ∙ ground (arith, bc f, empty f) in
    let (er, ec, ed, ee, en) =
      insert_free_lem kernel_end (m.number_of_frames - kernel_end) d (subst Distinct (sym list) bd)
        (λ f h. ground (arith, listed f, h, lo)) in
    (
      λ f lt. ground (arith, er f, dr f, cr f, br f, ar f, lt, lo, hi),
      λ f le. ground (arith, er f, dr f, cr f, br f, ar f, le, lo, hi),
      λ f. ground (arith, ec f, listed f, lo, hi),
      ed,
      ee ∙ de ∙ ce ∙ be ∙ ae,
      en ∙ dn ∙ cn ∙ bn ∙ an,
    )
