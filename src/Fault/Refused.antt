-- ===== src/Fault/Refused.antt =====
-- kern/trap/fault_handler.c: which faults end the process, which stop the machine, and that the
-- same fault is not taken for ever.
use fos_operational_system_f.Common.{ℕ, suc, ◌≤◌, ◌≡◌, ◌≢◌, subst, false, ◌&&◌, arith, ◌==◌}
use fos_operational_system_f.Common.Outcome.{Outcome, ok, leaves, panic, fault, to_scheduler}
use fos_operational_system_f.Common.Ends.{
  Ends, Ends-bind, Ends-if, Ends-panic, Ends-leaves, Ends-ok, Ends-fault,
}
use fos_operational_system_f.Mmu.{has_bit, perm_present}
use fos_operational_system_f.Frames.State.{Memory, pdx}
use fos_operational_system_f.Frames.Map.{KernelHeap}
use fos_operational_system_f.Fault.Handler.{
  FaultLog, Trap, FaultState, Run, permissions, is_repeated, log_fault, is_overflow, is_invalid,
  handle_page, handle_fault, fault_handler, on_log, repeat,
}

-- The log has the fault, for at least the `k`-th time in a row and at most the third.
abbrev pub Marked : Trap → ℕ → FaultState → Type 0
Marked t k s =
    (s.log.last_fault_va ≡ t.fault_va)
    × (s.log.last_faulted_env ≡ t.cur_env)
    × (k ≤ s.log.num_repeated_fault)
    × (s.log.num_repeated_fault ≤ 2)

abbrev pub Any : FaultState → Type 0
Any s = Unit {0}

-- A page fault handler that leaves the last fault in the log.
abbrev pub KeepsLog : (ℕ → ℕ → FaultState → Run) → Type 0
KeepsLog handler =
    (e va k : ℕ) (t : Trap) (s : FaultState) → Marked t k s → Ends Any (Marked t k) (handler e va s)

on_log-Marked :
    (t : Trap) (k : ℕ) (m : Memory) (l : FaultLog) (o : Outcome Memory Memory)
    → Marked t k (record { log = l; memory = m })
    → Ends Any (Marked t k) (on_log l o)
on_log-Marked t k m l (ok n) h = Ends-ok _ h
on_log-Marked t k m l (leaves e n) h = Ends-leaves e _ tt
on_log-Marked t k m l panic h = Ends-panic
on_log-Marked t k m l fault h = Ends-fault

module _ (K : KernelHeap) (handler : ℕ → ℕ → FaultState → Run) (keeps : KeepsLog handler)
    (t : Trap) where
  handle_fault-Marked :
      (k : ℕ) (s : FaultState) → Marked t k s → Ends Any (Marked t k) (handle_fault K handler t s)
  unfolding handle_fault handle_page
  handle_fault-Marked k s h =
      Ends-if (t.cur_env == 0) _ _ (λ _. Ends-panic)
        λ _.
          Ends-if (s.memory.has_table t.page_directory (pdx t.fault_va)) _ _
            (λ _.
              Ends-if
                (t.user_trap
                  && is_invalid t.fault_va (permissions t.page_directory t.fault_va s.memory))
                _ _ (λ _. Ends-leaves to_scheduler s tt)
                λ _.
                  Ends-if (has_bit perm_present (permissions t.page_directory t.fault_va s.memory))
                    _ _ (λ _. Ends-panic) (λ _. keeps t.cur_env t.fault_va k t _ h))
            (λ _. on_log-Marked t k s.memory _ _ h)

  checked-Marked :
      (k : ℕ) (s : FaultState)
      → ((is_repeated t s.log && ((log_fault t s.log).num_repeated_fault == 3)) ≡ false
          → Marked t k (record s { log = log_fault t s.log }))
      → Ends Any (Marked t k) (fault_handler K handler t s)
  unfolding fault_handler
  checked-Marked k s h =
      Ends-if (is_repeated t s.log && ((log_fault t s.log).num_repeated_fault == 3)) _ _
        (λ _. Ends-panic)
        λ no. Ends-if (is_overflow t) _ _ (λ _. Ends-panic) (λ _. handle_fault-Marked k _ (h no))

  first_fault :
      (s : FaultState)
      → s.log.num_repeated_fault ≤ 2
      → Ends Any (Marked t 0) (fault_handler K handler t s)
  unfolding log_fault
  first_fault s le =
      checked-Marked 0 s λ no. (ground arith, ground arith, omega arith, ground (arith, no, le))

  next_fault :
      (k : ℕ) (s : FaultState)
      → Marked t k s
      → Ends Any (Marked t (suc k)) (fault_handler K handler t s)
  unfolding log_fault
  next_fault k s (va, env, le, few) = checked-Marked (suc k) s λ no. (
    ground (arith, va),
    ground (arith, env),
    ground (arith, va, env, le),
    ground (arith, no, va, env, few),
  )

  four_faults :
      (s : FaultState)
      → s.log.num_repeated_fault ≤ 2
      → Ends Any (Marked t 3) (repeat K handler 4 t s)
  four_faults s le = Ends-bind (Marked t 0) _ _ (first_fault s le) λ a ha.
      Ends-bind (Marked t 1) _ _ (next_fault 0 a ha) λ b hb.
        Ends-bind (Marked t 2) _ _ (next_fault 1 b hb)
          λ c hc. Ends-bind (Marked t 3) _ _ (next_fault 2 c hc) λ d hd. Ends-ok d hd

  -- Four faults of one process at one address with nothing between them do not all return: the
  -- process is ended or the machine stops by the fourth, whatever the page fault handler does, as
  -- long as it leaves the last fault in the log.
  pub repeat-returns :
      (s q : FaultState) → s.log.num_repeated_fault ≤ 2 → repeat K handler 4 t s ≢ ok q
  repeat-returns s q le e =
      let h = (subst (λ o. Ends Any (Marked t 3) o) e (four_faults s le)).at in
      omega (arith, h.2, h.3)
