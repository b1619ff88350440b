-- ===== src/Fault/Handler.antt =====
-- kern/trap/fault_handler.c: fault_handler, which tells the kinds of faults apart, and
-- table_fault_handler.
use fos_operational_system_f.Common.{
  ℕ, zero, suc, ◌+◌, ◌%◌, Bool, not, ◌&&◌, ◌||◌, ◌==◌, ltb, leb, if◌then◌else◌, update,
}
use fos_operational_system_f.Common.Outcome.{Outcome, ok, leaves, panic, fault, ◌>>=◌, to_scheduler}
use fos_operational_system_f.Mmu.{page_size, has_bit, perm_present, perm_writeable, perm_uhpage}
use fos_operational_system_f.Frames.State.{Memory, slot, pdx}
use fos_operational_system_f.Frames.Map.{KernelHeap, create_page_table}
use fos_operational_system_f.Frames.UserMem.{user_heap_start, user_heap_max, ustacktop}
use fos_operational_system_f.Kheap.State.{kernel_heap_max}
use fos_operational_system_f.PageFile.State.{user_top}

-- What the handler keeps between faults, and the counters of the processes. Process 0 is NULL.
pub record FaultLog : Type 0 where
  pub last_fault_va : ℕ
  pub last_faulted_env : ℕ
  pub last_eip : ℕ
  pub before_last_fault_va : ℕ
  pub before_last_eip : ℕ
  pub num_repeated_fault : ℕ
  pub table_faults_counter : ℕ → ℕ
  pub page_faults_counter : ℕ → ℕ

-- The fault: CR2, the trap frame, the process on the CPU, its directory and kernel stack, and the
-- CPU's own stack.
pub record Trap : Type 0 where
  pub fault_va : ℕ
  pub tf_eip : ℕ
  pub user_trap : Bool
  pub cur_env : ℕ
  pub page_directory : ℕ
  pub kstack : ℕ
  pub cpu_stack : ℕ

pub record FaultState : Type 0 where
  pub log : FaultLog
  pub memory : Memory

abbrev pub Run : Type 0
Run = Outcome FaultState FaultState

-- pt_get_page_permissions
abbrev pub permissions : ℕ → ℕ → Memory → ℕ
permissions dir va m =
    if m.has_table dir (pdx va) then m.entries (slot dir va) % 4096 else 0xFFFFFFFF

-- The count of faults at one address, where the log has the same address and process.
abbrev pub is_repeated : Trap → FaultLog → Bool
is_repeated t l = (l.last_fault_va == t.fault_va) && (l.last_faulted_env == t.cur_env)

unfoldable pub log_fault : Trap → FaultLog → FaultLog
log_fault t l =
    if is_repeated t l
    then record l { num_repeated_fault = l.num_repeated_fault + 1; last_eip = t.tf_eip }
    else record l {
      before_last_fault_va = l.last_fault_va;
      before_last_eip = l.last_eip;
      num_repeated_fault = 0;
      last_eip = t.tf_eip;
      last_fault_va = t.fault_va;
      last_faulted_env = t.cur_env;
    }

-- The faults that stop the machine: the stack of the process in the kernel, that of the CPU, and
-- the kernel heap overflow, or the stack of the process underflows.
unfoldable pub is_overflow : Trap → Bool
is_overflow t =
    if t.user_trap
    then leb ustacktop t.fault_va && ltb t.fault_va user_top
    else not (t.cur_env == 0) && leb t.kstack t.fault_va && ltb t.fault_va (t.kstack + page_size)
      || leb t.cpu_stack t.fault_va && ltb t.fault_va (t.cpu_stack + page_size)
      || leb kernel_heap_max t.fault_va

-- A pointer of a process that may not be followed, from the permissions of its page.
unfoldable pub is_invalid : ℕ → ℕ → Bool
is_invalid va perms =
    leb ustacktop va
    || not (has_bit perm_uhpage perms) && leb user_heap_start va && ltb va user_heap_max
    || has_bit perm_present perms && not (has_bit perm_writeable perms)

abbrev pub add_one : (ℕ → ℕ) → ℕ → ℕ → ℕ
add_one f e = update f e (f e + 1)

-- table_fault_handler
unfoldable pub table_fault_handler : KernelHeap → ℕ → ℕ → Memory → Outcome Memory Memory
table_fault_handler K dir va m = create_page_table K dir va m

abbrev pub on_log : FaultLog → Outcome Memory Memory → Run
on_log l (ok m) = ok (record { log = l; memory = m })
on_log l (leaves e m) = leaves e (record { log = l; memory = m })
on_log l panic = panic
on_log l fault = fault

module _ (K : KernelHeap) (page_fault_handler : ℕ → ℕ → FaultState → Run) where
  -- The end of fault_handler, at a page whose table is there.
  unfoldable pub handle_page : Trap → FaultState → Run
  handle_page t s =
      let perms = permissions t.page_directory t.fault_va s.memory in
      if t.user_trap && is_invalid t.fault_va perms
      then leaves to_scheduler s
      else if has_bit perm_present perms
      then panic
      else page_fault_handler t.cur_env t.fault_va (record s {
        log = record s.log { page_faults_counter = add_one s.log.page_faults_counter t.cur_env };
      })

  -- fault_handler once the fault is known not to be an overflow.
  unfoldable pub handle_fault : Trap → FaultState → Run
  handle_fault t s =
      if t.cur_env == 0
      then panic
      else if s.memory.has_table t.page_directory (pdx t.fault_va)
      then handle_page t s
      else on_log
          (record s.log { table_faults_counter = add_one s.log.table_faults_counter t.cur_env })
          (table_fault_handler K t.page_directory t.fault_va s.memory)

  -- fault_handler. The algorithm with buffering only panics and is never chosen.
  unfoldable pub fault_handler : Trap → FaultState → Run
  fault_handler t s =
      let l = log_fault t s.log in
      if is_repeated t s.log && (l.num_repeated_fault == 3)
      then panic
      else if is_overflow t
      then panic
      else handle_fault t (record s { log = l })

  -- The same fault `n` times, with nothing else in between.
  abbrev pub repeat : ℕ → Trap → FaultState → Run
  repeat zero t s = ok s
  repeat (suc n) t s = fault_handler t s >>= repeat n t
