-- ===== src/Space/Examples.antt =====
-- kern/cpu/sched.c, update_WS_time_stamps: the aging step at a concrete working set.
use fos_operational_system_f.Common.{◌+◌, ◌*◌, some, [], ◌∷◌, ◌==◌, if◌then◌else◌}
use fos_operational_system_f.Mmu.{page_size}
use fos_operational_system_f.Space.{Space}
use fos_operational_system_f.Space.Aging.Aged.{Aged}

-- Two elements, of the pages 2 and 3; page 2 is marked used.
abbrev two_pages : Space
two_pages = record {
  page_ws_list = 1 ∷ 2 ∷ [];
  wse = λ i. record { virtual_address = (i + 1) * page_size; time_stamp = 6; sweeps_counter = 0 };
  page_ws_max_size = 5;
  page_last_ws_element = some 1;
  pte = λ k. if k == 2 then some 0x10025 else some 0x20005;
}
