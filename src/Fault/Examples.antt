-- ===== src/Fault/Examples.antt =====
-- kern/trap/fault_handler.c: the theorems on replacement at concrete working sets.
use fos_operational_system_f.Common.{
  ℕ, ◌+◌, ◌*◌, ◌≡◌, true, false, ◌⊎◌, some, List, [], ◌∷◌, arith, ◌==◌, if◌then◌else◌, contains,
  ◌/◌, refl,
}
use native.Mathlib.Decide.{ℕ_discrete}
use fos_operational_system_f.Space.Aging.Aged.{WorkingSet}
use fos_operational_system_f.Fault.Clock.{clock_search}
use fos_operational_system_f.Fault.Clock.Circle.{Circle}
use fos_operational_system_f.Fault.Clock.Round.{FirstUnused, AllUsed, Stopped}
use fos_operational_system_f.Fault.Clock.Search.{clock_search_lem}
use fos_operational_system_f.Common.Outcome.{ok}
use fos_operational_system_f.Mmu.{page_size}
use fos_operational_system_f.Space.{Space}
use fos_operational_system_f.Kheap.State.{Kheap, kernel_heap_start, dyn_alloc_max_size}
use fos_operational_system_f.Kheap.Valid.{kva}
use fos_operational_system_f.Kheap.Alloc.{BlockAllocator}
use fos_operational_system_f.Fault.Optimal.{reference}
use fos_operational_system_f.Fault.Optimal.Resident.{Referenced, reference_lem}

abbrev first_block : BlockAllocator
first_block = record {
  alloc_block = λ size h. ok (kernel_heap_start, h);
  free_block = λ va h. ok h;
  realloc_block = λ va size h. ok (va, h);
  get_block_size = λ va h. 2048;
}

abbrev fresh_heap : Kheap
fresh_heap = record {
  kallocation_sizes = λ i. 0;
  page_alloc_start = kva 8193;
  page_alloc_break = kva 8193;
  dyn_alloc_end = kernel_heap_start + dyn_alloc_max_size;
  present = λ p. false;
  free_frames = 100;
  bytes = λ a. 0;
}

reference_lem_example :
    (l : List ℕ) × (m : ℕ) × (reference 2 0x3000 (0x1000 ∷ []) (0x1000 ∷ 0x2000 ∷ [], 4)
      ≡ some (l, m))
    × Referenced 2 0x3000 (0x1000 ∷ []) (0x1000 ∷ 0x2000 ∷ []) 4 l m
reference_lem_example =
    reference_lem 2 0x3000 (0x1000 ∷ []) (0x1000 ∷ 0x2000 ∷ []) 4 (ground arith) (ground arith)
      (ground arith)

abbrev aged_pages : Space
aged_pages = record {
  page_ws_list = 1 ∷ 2 ∷ 3 ∷ [];
  wse = λ i. record {
    virtual_address = i * page_size;
    time_stamp = if i == 2 then 7 else 9;
    sweeps_counter = 0;
  };
  page_ws_max_size = 3;
  page_last_ws_element = some 1;
  pte = λ k. some 5;
}

-- The pages of the elements 1 and 3 are marked used, that of 2 is not.
abbrev clocked_pages : Space
clocked_pages = record aged_pages {
  page_last_ws_element = some 3;
  pte = λ k. if k == 2 then some 5 else some 0x25;
}

clocked_pages-WorkingSet : WorkingSet (1 ∷ 2 ∷ 3 ∷ []) clocked_pages
unfolding contains
clocked_pages-WorkingSet = record {
  once = (refl, (refl, (refl, tt)));
  table = λ p m. entry (p * page_size / page_size);
  apart = λ p q m n ne. omega arith;
}
  where
    entry : (k : ℕ) → (e : ℕ) × (clocked_pages.pte k ≡ some e)
    entry k = elim (ℕ_discrete k 2) [ yes h ↦ (5, ground arith) | no h ↦ (0x25, ground arith) ]

three_in : contains 3 (1 ∷ 2 ∷ 3 ∷ []) ≡ true
unfolding contains
three_in = refl

clock_search_lem_example :
    (r : List ℕ) × Circle (1 ∷ 2 ∷ 3 ∷ []) 3 r
    × ((v : ℕ) × (t : Space) × (clock_search {S = Space} 4 clocked_pages ≡ ok (v, t))
        × Stopped clocked_pages v t
        × (FirstUnused clocked_pages (3 ∷ r) v ⊎ (AllUsed clocked_pages (3 ∷ r) × (3 ≡ v))))
clock_search_lem_example =
    clock_search_lem Space 4 clocked_pages 3 clocked_pages-WorkingSet refl three_in (ground arith)
