-- ===== src/Frames/Examples.antt =====
-- Concrete runs of the memory manager.
use fos_operational_system_f.Common.{
  not, Distinct, ℕ, ◌+◌, ◌*◌, ◌%◌, ◌≤◌, ◌<◌, ◌≡◌, ◌≢◌, refl, ◌⊎◌, inl, inr, true, false, none, some,
  length, List, [], ◌∷◌, arith, ◌==◌, if◌then◌else◌, update, contains, ltb, ◌&&◌,
}
use native.Mathlib.Decide.{ℕ_discrete}
use fos_operational_system_f.Common.Outcome.{ok, panic, fault, ◌>>=◌}
use fos_operational_system_f.Mmu.{has_bit}
use fos_operational_system_f.Frames.State.{Memory, slot, allocate_frame}
use fos_operational_system_f.Frames.Table.{holds_frame, get_frame_info, construct_entry, bits_or}
use fos_operational_system_f.Frames.Map.{
  KernelHeap, unmap_frame, map_frame, alloc_page, map_in_table, link_frame,
}
use fos_operational_system_f.Frames.Valid.{FramesValid, holders, holds_one}
use fos_operational_system_f.Frames.Unmapped.{unmap_frame_lem}
use fos_operational_system_f.Frames.Table.{entry_frame, available_bits}
use fos_operational_system_f.Frames.Mapped.{MapsTo, fresh, map_frame_lem}
use fos_operational_system_f.Frames.Map.{kheap_virtual_address, kheap_physical_address}
use fos_operational_system_f.Frames.Paged.{
  unmap_frame-alloc_page, kheap_virtual_address-kheap_physical_address,
}
use fos_operational_system_f.Frames.Refines.{
  Command, allocate, release, Steps, AllReady, pages, execute_all, execute_all_lem,
}
use fos_operational_system_f.Frames.Stack.{delete_stack_page, create_user_kern_stack}
use fos_operational_system_f.Frames.Doubled.{delete_stack_page_lem}
use fos_operational_system_f.Frames.Stacked.{Mappables}
use fos_operational_system_f.Frames.Guarded.{create_user_kern_stack_lem}
use fos_operational_system_f.Mmu.{page_size, perm_present}
use fos_operational_system_f.Frames.Boot.{is_reserved, initialize_paging, initialize_paging_lem}
use fos_operational_system_f.Frames.Memories.{
  example_memory, example_base, example_heap, example_memory-FramesValid, mapped_memory,
  taken_memory, mapped_memory-FramesValid, taken_memory-FramesValid, empty_page, held_page,
}

unmap_frame_lem_example :
    (k : Memory) × (unmap_frame 0 0x3000 mapped_memory ≡ ok k)
    × (((holds_frame (mapped_memory.entries 3) ≡ false) × (k ≡ mapped_memory))
        ⊎ ((holds_frame (mapped_memory.entries 3) ≡ true)
            × (k.entries
                ≡ update mapped_memory.entries 3 (available_bits (mapped_memory.entries 3)))
            × (k.has_table ≡ mapped_memory.has_table)
            × (k.number_of_frames ≡ mapped_memory.number_of_frames)
            × FramesValid example_base 4 none k
            × (k.free_frame_list ≡ (
                let f = entry_frame (mapped_memory.entries 3) in
                if (mapped_memory.frames_info f).references == 1
                then f ∷ mapped_memory.free_frame_list
                else mapped_memory.free_frame_list))))
unmap_frame_lem_example =
    unmap_frame_lem example_base 4 none mapped_memory 0 0x3000 mapped_memory-FramesValid refl

map_frame_lem_example :
    (k : Memory) × (map_frame example_heap 0 1 0x3000 6 taken_memory ≡ ok k)
    × (length taken_memory.free_frame_list ≤ length k.free_frame_list)
    × MapsTo example_base 4 0 1 0x3000 taken_memory k
map_frame_lem_example =
    map_frame_lem example_base 4 0 1 0x3000 6 (omega arith) example_heap (some 1) taken_memory
      taken_memory-FramesValid (omega arith) (fresh refl) (omega arith) refl refl
      (inl (empty_page 3))

unmap_frame-alloc_page_example :
    (j : Memory) × ((alloc_page example_heap 0 0x3000 6 example_memory >>= λ r.
    unmap_frame 0 0x3000 r.1)
      ≡ ok j)
    × (j.free_frame_list ≡ example_memory.free_frame_list)
    × (holds_frame (j.entries 3) ≡ false)
    × ((t : ℕ) → slot 0 0x3000 ≢ t → j.entries t ≡ example_memory.entries t)
    × FramesValid example_base 4 none j
unmap_frame-alloc_page_example =
    unmap_frame-alloc_page example_heap example_base 4 0 0x3000 6 1 (2 ∷ []) example_memory
      example_memory-FramesValid (omega arith) refl refl (empty_page 3) refl

abbrev allocated_memory : Memory
allocated_memory = record example_memory {
  free_frame_list = 2 ∷ [];
  frames_info =
      update
        (update example_memory.frames_info 1
          (record { kheap_mapped_va = 0; references = 0; is_buffered = false }))
        1 (record { kheap_mapped_va = 0x3000; references = 1; is_buffered = false });
  entries = update example_memory.entries 3 0x1007;
}

allocated_memory-alloc_page :
    alloc_page example_heap 0 0x3000 6 example_memory ≡ ok (0, allocated_memory)
unfolding alloc_page map_frame get_frame_info allocate_frame map_in_table link_frame holds_frame
    construct_entry bits_or
allocated_memory-alloc_page = refl

kheap_virtual_address-kheap_physical_address_example :
    (pa : ℕ) × (kheap_physical_address 0 0x3005 allocated_memory ≡ ok pa)
    × (pa % page_size ≡ 5)
    × (kheap_virtual_address pa allocated_memory ≡ ok 0x3005)
kheap_virtual_address-kheap_physical_address_example =
    kheap_virtual_address-kheap_physical_address example_heap example_base 4 0 0x3000 6 5
      example_memory allocated_memory example_memory-FramesValid (omega arith) refl refl
      (omega arith) (omega arith) refl (omega arith) allocated_memory-alloc_page

abbrev example_commands : List Command
example_commands = allocate 0 0x1000 ∷ allocate 0 0x2000 ∷ release 0 0x1000 ∷ allocate 0 0x3000 ∷ []

example_commands-AllReady : AllReady 4 (λ va. 6) example_commands example_memory.has_table
unfolding AllReady
example_commands-AllReady = (
  record { inside = omega arith; table = refl; plain = refl },
  (
    record { inside = omega arith; table = refl; plain = refl },
    (
      record { inside = omega arith; table = refl; plain = refl },
      (record { inside = omega arith; table = refl; plain = refl }, tt),
    ),
  ),
)

execute_all_lem_example :
    ((execute_all example_heap (λ va. 6) example_commands example_memory ≡ panic)
      × Steps example_base 3 (pages example_memory) example_commands none)
    ⊎ ((k : Memory) × (execute_all example_heap (λ va. 6) example_commands example_memory ≡ ok k)
        × Steps example_base 3 (pages example_memory) example_commands (some (pages k))
        × FramesValid example_base 4 none k)
execute_all_lem_example =
    execute_all_lem example_heap example_base 4 (λ va. 6) example_commands example_memory
      example_memory-FramesValid example_commands-AllReady

delete_stack_page_lem_example : delete_stack_page 0 0x3000 mapped_memory ≡ fault
delete_stack_page_lem_example =
    delete_stack_page_lem example_base 4 mapped_memory 0 0x3000 mapped_memory-FramesValid refl
      held_page refl

-- The kernel stack is given the pages from 0x1000 up. The page 0x9000 behind it holds the frame 2.
abbrev stack_memory : Memory
stack_memory = record example_memory {
  frames_info = λ f. record {
    kheap_mapped_va = 0;
    references = if f == 0 then 1 else if f == 1 then 1 else if f == 2 then 1 else 0;
    is_buffered = false;
  };
  number_of_frames = 11;
  free_frame_list = 3 ∷ 4 ∷ 5 ∷ 6 ∷ 7 ∷ 8 ∷ 9 ∷ 10 ∷ [];
  entries = λ s. if s == 1 then 0x1003 else if s == 9 then 0x2003 else 0;
}

abbrev stack_heap : KernelHeap
stack_heap = record { kmalloc = λ size m. ok (0x1000, stack_memory); kfree = λ va m. ok m }

stack_memory-FramesValid : FramesValid example_base 11 none stack_memory
unfolding holders holds_one holds_frame contains
stack_memory-FramesValid = record {
  counted = λ f. ground arith;
  small = λ f. ground arith;
  inside = λ s h. ground (arith, h);
  real = λ s h. ground (arith, h);
  unbuffered = λ s. ground arith;
  distinct = (
    ground arith,
    (
      ground arith,
      (
        ground arith,
        (ground arith, (ground arith, (ground arith, (ground arith, (ground arith, tt))))),
      ),
    ),
  );
  unused = λ f c. ground (arith, c);
  free_real = λ f c. ground (arith, c);
  complete = λ f lt z. inl (ground (arith, lt, z));
  transit = λ f e. absurd (ground (arith, e));
}

stack_memory-Mappables : Mappables 11 0 0x2000 8 stack_memory
unfolding holds_frame
stack_memory-Mappables = record {
  inside = λ i lt. omega (arith, lt);
  tables = λ i lt. refl;
  pages = λ i lt. elim (ℕ_discrete i 6) [
    | yes e ↦ inr (ground (arith, e))
    | no ne ↦ inl (ground (arith, ne, lt))
  ];
}

create_user_kern_stack_lem_example :
    (k : Memory) × (create_user_kern_stack stack_heap 0 example_memory ≡ ok (0x1000, k))
    × (has_bit perm_present (k.entries 1) ≡ false)
    × (k.entries 2 ≡ stack_memory.entries 2)
    × ((i : ℕ)
        → i < 8
        → has_bit perm_present (k.entries (slot 0 (0x1000 + (2 + i) * page_size))) ≡ true)
    × FramesValid example_base 11 none k
create_user_kern_stack_lem_example =
    create_user_kern_stack_lem stack_heap example_base 11 0 0x1000 example_memory stack_memory refl
      stack_memory-FramesValid (omega arith) refl (omega arith) (omega arith) stack_memory-Mappables

-- 300 frames, of which the kernel has those up to 260.
abbrev boot_memory : Memory
boot_memory = record example_memory {
  number_of_frames = 300;
  frames_info = λ f. record { kheap_mapped_va = 0; references = 0; is_buffered = false };
}

initialize_paging_lem_example :
    let m = initialize_paging 260 boot_memory in
    ((f : ℕ) → f < 300 → (m.frames_info f).references ≡ (if is_reserved 260 f then 1 else 0))
    × ((f : ℕ) → 300 ≤ f → (m.frames_info f).references ≡ 0)
    × ((f : ℕ) → contains f m.free_frame_list ≡ (ltb f 300 && not (is_reserved 260 f)))
    × Distinct m.free_frame_list
    × (m.entries ≡ boot_memory.entries)
    × (m.number_of_frames ≡ 300)
initialize_paging_lem_example = initialize_paging_lem 260 boot_memory (omega arith) (omega arith)
