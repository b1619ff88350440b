-- ===== src/Fault/Faults.antt =====
-- kern/trap/fault_handler.c: the theorems on placement and on fault_handler at a small machine.
use fos_operational_system_f.Common.{ℕ, ◌*◌, ◌≢◌, refl, true, none, some, [], ◌∷◌, arith}
use fos_operational_system_f.Common.Outcome.{ok}
use fos_operational_system_f.Common.Ends.{Ends, Ends-ok}
use fos_operational_system_f.Frames.Memories.{example_memory}
use fos_operational_system_f.PageFile.State.{PageFile}
use fos_operational_system_f.PageFile.Pages.{initialize_disk_page_file}
use fos_operational_system_f.PageFile.Devices.{small_disk, one_page_heap, first_env}
use fos_operational_system_f.Fault.Process.{Process}
use fos_operational_system_f.Fault.Replace.{clock, page_fault_handler}
use fos_operational_system_f.Fault.Sized.{Sized, page_fault_handler-Sized}
use fos_operational_system_f.Fault.Apart.{Apart}
use fos_operational_system_f.Fault.Handler.{Trap, FaultState, Run, repeat}
use fos_operational_system_f.Fault.Refused.{KeepsLog, repeat-returns}

abbrev no_pages : PageFile (ℕ → ℕ)
no_pages = record {
  memory = example_memory;
  bytes = λ f. f * 11;
  cr3 = 0;
  disk = λ s. 0;
  disk_free_frame_list = [];
  envs = λ e. first_env;
  disk_tables = λ t. 0;
  page_dfns = λ s. 0;
  table_dfns = λ t. 0;
}

-- A process without pages, which may have three.
abbrev empty_process : Process (ℕ → ℕ)
empty_process = record {
  file = initialize_disk_page_file no_pages;
  page_ws_list = [];
  wse = λ p. record { virtual_address = 0; time_stamp = 0; sweeps_counter = 0 };
  page_ws_max_size = 3;
  page_last_ws_element = none;
}

abbrev quiet_state : FaultState
quiet_state = record {
  log = record {
    last_fault_va = 0;
    last_faulted_env = 0;
    last_eip = 0;
    before_last_fault_va = 0;
    before_last_eip = 0;
    num_repeated_fault = 0;
    table_faults_counter = λ e. 0;
    page_faults_counter = λ e. 0;
  };
  memory = example_memory;
}

-- A process follows a pointer to a page of the heap that it has not allocated.
abbrev wild_pointer : Trap
wild_pointer = record {
  fault_va = 0x80005000;
  tf_eip = 0x800020;
  user_trap = true;
  cur_env = 4;
  page_directory = 0;
  kstack = 0xF0000000;
  cpu_stack = 0xF1000000;
}

-- A handler that does nothing.
abbrev idle : ℕ → ℕ → FaultState → Run
idle e va s = ok s

idle-KeepsLog : KeepsLog idle
idle-KeepsLog e va k t s h = Ends-ok s h

repeat-returns_example : repeat one_page_heap idle 4 wild_pointer quiet_state ≢ ok quiet_state
repeat-returns_example =
    repeat-returns one_page_heap idle idle-KeepsLog wild_pointer quiet_state quiet_state
      (omega arith)

-- One page, at 0x80000000, is all that the process may have.
abbrev full_process : Process (ℕ → ℕ)
full_process = record empty_process {
  page_ws_list = 7 ∷ [];
  wse = λ p. record { virtual_address = 0x80000000; time_stamp = 0; sweeps_counter = 0 };
  page_ws_max_size = 1;
  page_last_ws_element = some 7;
}

page_fault_handler-Sized_example :
    Ends
      (Sized 1)
      (Sized 1)
      (page_fault_handler small_disk one_page_heap 20 2 clock [] 6 0 0x80001000 full_process)
page_fault_handler-Sized_example =
    page_fault_handler-Sized small_disk one_page_heap 20 1 0 0x80001000 2 clock [] 6 full_process
      (omega arith) refl
