-- ===== src/Shares/Examples.antt =====
-- kern/mem/shared_memory_manager.c: the theorems on shared objects at concrete states.
use fos_operational_system_f.Common.{◌≡◌, refl, true, false, none, some, [], ◌∷◌, arith, contains}
use fos_operational_system_f.Common.Outcome.{ok, fault}
use fos_operational_system_f.Mmu.{roundup, rounddown}
use fos_operational_system_f.Frames.Table.{holds_frame}
use fos_operational_system_f.Frames.Memories.{
  example_memory, example_base, example_heap, mapped_memory, mapped_memory-FramesValid,
}
use fos_operational_system_f.Shares.{Shares, object, find_share, pages_of_share, get_shared_object}
use fos_operational_system_f.Shares.Found.{Shareable, SharedPages, get_shared_object_lem}
use fos_operational_system_f.Shares.Freeing.{free_share}
use fos_operational_system_f.Shares.Freed.{free_share_lem}

-- No object is on the list, and there is an array of two elements.
abbrev one_array : Shares
one_array = record {
  memory = example_memory;
  shares_list = [];
  share = λ p. record {
    id = 9;
    owner_id = 6;
    name = 5;
    size = 0x1000;
    references = 1;
    is_writable = true;
    frames_storage = 7;
  };
  storage = λ a. record { length = 2; frames = λ i. none };
  shareslock = false;
}

-- The object 9 has the frame 1, which is mapped at 0x3000.
abbrev one_object : Shares
one_object = record one_array {
  memory = mapped_memory;
  shares_list = 9 ∷ [];
  storage = λ a. record { length = 1; frames = λ i. some 1 };
}

one_page-Shareable :
    Shareable 4 0 0x1000 0 (pages_of_share 0x1000) (λ j. 1) (one_object.storage 7) mapped_memory
unfolding roundup rounddown holds_frame
one_page-Shareable = record {
  low = omega arith;
  stored = λ j a b. (omega (arith, b), refl);
  inside = λ j a b. omega (arith, b);
  tables = λ j a b. refl;
  free = λ j a b. ground (arith, b);
  mapped = λ j a b. (omega arith, omega arith, omega arith);
}

one_object-find_share : find_share one_object.share one_object.shares_list 6 5 ≡ some 9
unfolding find_share
one_object-find_share = refl

get_shared_object_lem_example :
    (t : Shares) × (get_shared_object example_heap 0 6 5 0x1000 one_object ≡ ok (object 9, t))
    × ((t.share 9).references ≡ 2)
    × (t.shareslock ≡ false)
    × SharedPages example_base 4 0 0x1000 0 (pages_of_share 0x1000) (λ j. 1) mapped_memory t.memory
get_shared_object_lem_example =
    get_shared_object_lem example_heap example_base 4 0 6 5 0x1000 9 (λ j. 1) one_object refl
      one_object-find_share mapped_memory-FramesValid one_page-Shareable

listed_object : contains 9 one_object.shares_list ≡ true
unfolding contains
listed_object = ground arith

free_share_lem_example : free_share example_heap 9 one_object ≡ fault
free_share_lem_example =
    free_share_lem example_heap 9 one_object refl listed_object refl (λ j lt. (1, refl))
