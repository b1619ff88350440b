-- ===== src/Conc/Asleep.antt =====
-- kern/conc/channel.c: the process that goes to sleep on a channel.
use fos_operational_system_f.Common.{ℕ, ◌+◌, ◌-◌, ◌≡◌, Bool, true, false, some, ◌∷◌, arith}
use fos_operational_system_f.Common.Outcome.{leaves, to_scheduler}
use fos_operational_system_f.Sched.State.{blocked, acquire, enqueue, set_status}
use fos_operational_system_f.Sched.Select.{sched}
use fos_operational_system_f.Conc.Channel.{Channel, release_lk, sleep}

-- The process `p` runs with no kspinlock held, `n` levels of disabled interrupts, and the lock of
-- the queues held or not.
pub record Runs (p n : ℕ) (q : Bool) (c : Channel) : Type 0 where
  pub current : c.scheduler.proc ≡ some p
  pub unguarded : c.lk ≡ false
  pub nesting : c.scheduler.ncli ≡ n
  pub queues : c.scheduler.qlock ≡ q

-- The state in which a process that goes to sleep leaves its channel.
abbrev pub slept : ℕ → Channel → Channel
slept p c = record c {
  lk = false;
  queue = p ∷ c.queue;
  scheduler =
      set_status (record c.scheduler { qlock = true; ncli = c.scheduler.ncli + 1 - 1 }) p blocked;
}

pub sleep_lem :
    (p : ℕ) (c : Channel)
    → c.lk ≡ true
    → c.scheduler.qlock ≡ false
    → c.scheduler.ncli ≡ 1
    → c.scheduler.proc ≡ some p
    → sleep c ≡ leaves to_scheduler (slept p c)
unfolding sleep acquire release_lk enqueue sched
sleep_lem p c g q n e = ground (arith, g, q, n, e)
