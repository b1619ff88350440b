-- ===== src/Sched/Setup.antt =====
-- kern/cpu/sched.c, kern/cpu/sched_helpers.c: the default initialisation, the calls of the
-- schedulers that are not implemented, and what only walks over the queues. kern/cpu/cpu.c:
-- pushcli and popcli.
use fos_operational_system_f.Common.{
  ℕ, ◌+◌, ◌-◌, Bool, false, ◌&&◌, Option, none, some, List, [], ◌==◌, if◌then◌else◌, length,
}
use fos_operational_system_f.Common.Outcome.{Outcome, ok, panic, ◌>>=◌}
use fos_operational_system_f.Sched.State.{Sched, Run, stopped, acquire, release}
use fos_operational_system_f.Sched.Select.{sched_init_rr}

-- LIST_INIT
unfoldable pub init_queue : List ℕ → List ℕ
init_queue q = []

unfoldable pub queue_size : Option (List ℕ) → ℕ
queue_size none = 0
queue_size (some q) = length q

-- sched_init; INIT_QUANTUM_IN_MS is the quantum, and init_kspinlock leaves the lock free.
unfoldable pub sched_init : Bool → ℕ → Sched → Run
unfolding sched_init_rr init_queue
sched_init allocated init_quantum s = do
  t ← sched_init_rr allocated init_quantum s
  ok (record t {
    env_new_queue = init_queue t.env_new_queue;
    env_exit_queue = init_queue t.env_exit_queue;
    scheduler_status = stopped;
    qlock = false;
  })

unfoldable pub sched_init_mlfq : Sched → Run
sched_init_mlfq s = panic

unfoldable pub sched_init_bsd : Sched → Run
sched_init_bsd s = panic

-- Only prints, under the lock.
unfoldable pub sched_print_all : Sched → Run
unfolding acquire release
sched_print_all s = acquire s >>= release

-- A CPU's interrupt state: the flag, what it was before the first pushcli, and the depth.
pub record Interrupts : Type 0 where
  pub enabled : Bool
  pub intena : Bool
  pub ncli : ℕ

unfoldable pub pushcli : Interrupts → Interrupts
pushcli c = record c {
  enabled = false;
  intena = if c.ncli == 0 then c.enabled else c.intena;
  ncli = c.ncli + 1;
}

unfoldable pub popcli : Interrupts → Outcome Interrupts Interrupts
popcli c =
    if c.enabled
    then panic
    else if c.ncli == 0
    then panic
    else ok (record c { enabled = (c.ncli == 1) && c.intena; ncli = c.ncli - 1 })
