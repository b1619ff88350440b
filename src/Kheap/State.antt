-- ===== src/Kheap/State.antt =====
-- kern/mem/kheap.c, kern/mem/kheap.h: the state of the kernel heap, and its pages. The page tables
-- of the heap exist from the start, and a heap frame has one reference.
use fos_operational_system_f.Common.{
  ℕ, zero, suc, ◌+◌, ◌-◌, ◌*◌, ◌/◌, ◌^◌, Bool, true, false, ◌==◌, ltb, leb, if◌then◌else◌, update,
  ◌&&◌, ◌||◌,
}
use fos_operational_system_f.Common.Outcome.{Outcome, ok, panic, fault}
use fos_operational_system_f.Mmu.{page_size, roundup}

abbrev pub kernel_heap_start : ℕ
kernel_heap_start = 0xF6000000

abbrev pub kernel_heap_max : ℕ
kernel_heap_max = 0xFFFFF000

abbrev pub dyn_alloc_max_size : ℕ
dyn_alloc_max_size = 32 * 2 ^ 20

abbrev pub dyn_alloc_max_block_size : ℕ
dyn_alloc_max_block_size = 2048

-- The number of elements of kallocation_sizes.
abbrev pub kheap_pages_count : ℕ
kheap_pages_count = (kernel_heap_max - kernel_heap_start) / page_size

-- `kallocation_sizes` maps a page of the heap to the size of the allocation that starts there,
-- 0 if none does. `present` is the PRESENT bit of the pages in the kernel's directory, by page
-- number, and no page of the heap holds a frame without it: the guard page of a kernel stack,
-- whose PRESENT bit is cleared, is outside of this model. `free_frames` is the length of the free
-- frame list; `bytes` is the heap's content.
pub record Kheap : Type 0 where
  pub kallocation_sizes : ℕ → ℕ
  pub page_alloc_start : ℕ
  pub page_alloc_break : ℕ
  pub dyn_alloc_end : ℕ
  pub present : ℕ → Bool
  pub free_frames : ℕ
  pub bytes : ℕ → ℕ

abbrev pub Run : Type 0
Run = Outcome Kheap Kheap

-- A pointer, 0 for NULL, and the heap.
abbrev pub Allocated : Type 0
Allocated = Outcome Kheap (ℕ × Kheap)

abbrev pub kva_to_index : ℕ → ℕ
kva_to_index va = (va - kernel_heap_start) / page_size

-- ROUNDUP(size, PAGE_SIZE) / PAGE_SIZE
unfoldable pub pages_of : ℕ → ℕ
unfolding roundup
pages_of size = roundup size page_size / page_size

-- kheap_init; initialize_dynamic_allocator sets dynAllocEnd to its second argument.
unfoldable pub kheap_init : Kheap → Kheap
kheap_init h = record h {
  dyn_alloc_end = kernel_heap_start + dyn_alloc_max_size;
  page_alloc_start = kernel_heap_start + dyn_alloc_max_size + page_size;
  page_alloc_break = kernel_heap_start + dyn_alloc_max_size + page_size;
}

-- get_page: alloc_page does nothing for a page that is mapped, and allocate_frame panics when
-- memory has run out, so that get_page never returns an error.
unfoldable pub get_page : ℕ → Kheap → Run
get_page va h =
    if h.present (va / page_size)
    then ok h
    else if h.free_frames == 0
    then panic
    else ok (record h {
      present = update h.present (va / page_size) true;
      free_frames = h.free_frames - 1;
    })

-- return_page: unmap_frame does nothing for a page that is not mapped.
unfoldable pub return_page : ℕ → Kheap → Kheap
return_page va h =
    if h.present (va / page_size)
    then record h {
      present = update h.present (va / page_size) false;
      free_frames = h.free_frames + 1;
    }
    else h

-- Are the `count` pages from `page` on present?
unfoldable pub pages_present : ℕ → ℕ → Kheap → Bool
pages_present zero page h = true
pages_present (suc count) page h = h.present page && pages_present count (page + 1) h

-- The number of pages that the `n` bytes at `va` touch.
abbrev pub touched : ℕ → ℕ → ℕ
touched va n = if n == 0 then 0 else (va + n - 1) / page_size - va / page_size + 1

-- memcpy of `n` bytes. An access to a page that is not present is a fault, and so is a copy between
-- places that overlap, which memcpy leaves undefined.
unfoldable pub memcpy : ℕ → ℕ → ℕ → Kheap → Run
memcpy dst src n h =
    if pages_present (touched src n) (src / page_size) h
      && pages_present (touched dst n) (dst / page_size) h
      && (leb (dst + n) src || leb (src + n) dst)
    then ok (record h {
      bytes = λ a. if leb dst a && ltb a (dst + n) then h.bytes (src + (a - dst)) else h.bytes a;
    })
    else fault
