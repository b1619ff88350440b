-- ===== src/Fault/Released.antt =====
-- kern/mem/chunk_operations.c: what free_user_mem leaves of the working set.
use fos_operational_system_f.Common.{ℕ, ◌+◌, ◌*◌, ◌<◌, ◌≡◌, Option, none, some, List}
use fos_operational_system_f.Common.Outcome.{Outcome}
use fos_operational_system_f.Common.Ends.{Ends}
use fos_operational_system_f.Mmu.{page_size}
use fos_operational_system_f.Space.{Element}
use fos_operational_system_f.Frames.Map.{KernelHeap}
use fos_operational_system_f.PageFile.State.{Ide, PageFile}
use fos_operational_system_f.Fault.Process.{Process}
use fos_operational_system_f.Fault.Apart.{Apart}
use fos_operational_system_f.Fault.Release.{find_page}

-- No element stands at the page of `va`.
abbrev pub Gone : {S : Type 0} → ℕ → Process S → Type 0
Gone va s = find_page s.wse va s.page_ws_list ≡ none

-- What the freeing of pages keeps of the working set `l`: the elements, and what had gone.
pub record Fewer {S : Type 0} (w : ℕ → Element) (l : List ℕ) (t : Process S) : Type 0 where
  pub elements : t.wse ≡ w
  pub apart : Apart t.wse t.page_ws_list
  pub gone : (va : ℕ) → find_page w va l ≡ none → Gone va t

module _ {S : Type 0} where
  abbrev pub Any : Process S → Type 0
  Any s = Unit {0}

module _ (D : Ide) (K : KernelHeap) (element e : ℕ) where
  -- What the freeing of the `count` pages from `va` up leaves, and that the loop has ended.
  abbrev pub Freed : (ℕ → Element) → List ℕ → ℕ → ℕ → Option (Process D.State) → Type 0
  Freed w l va count o =
      (t : Process D.State) × (o ≡ some t)
      × Fewer w l t
      × ((i : ℕ) → i < count → Gone (va + i * page_size) t)
