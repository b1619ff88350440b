-- ===== src/Kheap/Fit.antt =====
-- kern/mem/kheap.c, find_customfit: the placement of page allocations, exact fit and then worst fit.
pub mod Sound
pub mod Search
use fos_operational_system_f.Common.{
  ℕ, zero, suc, ◌+◌, ◌-◌, ◌*◌, ◌/◌, ◌%◌, ◌^◌, ◌≤◌, ◌<◌, ◌≡◌, Bool, true, false, not, ◌&&◌, Option,
  none, some, arith, ◌==◌, ltb, leb, if◌then◌else◌,
}
use fos_operational_system_f.Mmu.{page_size}
use fos_operational_system_f.Kheap.State.{Kheap, kva_to_index, pages_of, kheap_pages_count}

-- The best places found so far.
pub record Best : Type 0 where
  pub first_exact_va : ℕ
  pub worst_va : ℕ
  pub worst_size : ℕ

-- The inner loop: the number of free pages from `va` on, at most `fuel`.
unfoldable pub free_run : ℕ → Kheap → ℕ → ℕ
free_run zero h va = 0
free_run (suc fuel) h va =
    let rest = free_run fuel h ((va + page_size) % 2 ^ 32) in
    if ltb va h.page_alloc_break && (h.kallocation_sizes (kva_to_index va) == 0)
    then suc rest
    else 0

-- The two tests at the end of a free run of `size` pages at `va`.
unfoldable pub consider : ℕ → ℕ → ℕ → Best → Best
consider n va size b =
    let c : Best =
      if (size == n) && (b.first_exact_va == 0) then record b { first_exact_va = va } else b in
    if leb n size && ltb c.worst_size size then record c { worst_size = size; worst_va = va } else c

-- The outer loop. `none` means that the fuel ran out.
unfoldable pub customfit_loop : ℕ → Kheap → ℕ → ℕ → Best → Option Best
customfit_loop zero h n va b = none
customfit_loop (suc fuel) h n va b =
    let size = h.kallocation_sizes (kva_to_index va) in
    let run = free_run kheap_pages_count h va in
    elim (ltb va h.page_alloc_break) [
      | false ↦ some b
      | true ↦ elim (size == 0) [
        | false ↦ customfit_loop fuel h n ((va + pages_of size * page_size) % 2 ^ 32) b
        | true ↦ customfit_loop fuel h n ((va + run * page_size) % 2 ^ 32) (consider n va run b)
      ]
    ]

unfoldable pub choose : ℕ → Best → ℕ
choose n b =
    if not (b.first_exact_va == 0)
    then b.first_exact_va
    else if leb n b.worst_size
    then b.worst_va
    else 0

unfoldable pub find_customfit : Kheap → ℕ → Option ℕ
find_customfit h n =
    elim (customfit_loop (kheap_pages_count + 1) h n h.page_alloc_start
      (record { first_exact_va = 0; worst_va = 0; worst_size = 0 })) [
        | none ↦ none
        | some b ↦ some (choose n b)
      ]
