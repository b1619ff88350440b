-- ===== src/Conc/Channel.antt =====
-- kern/conc/channel.c, kern/conc/kspinlock.c: sleeping on a channel and waking its processes.
use fos_operational_system_f.Common.{
  ℕ, zero, suc, ◌+◌, ◌-◌, Bool, true, false, none, some, List, ltb, if◌then◌else◌,
}
use fos_operational_system_f.Common.Outcome.{Outcome, ok, leaves, panic, fault, ◌>>=◌}
use fos_operational_system_f.Sched.State.{
  Sched, blocked, acquire, release, enqueue, dequeue, set_status,
}
use fos_operational_system_f.Sched.Select.{sched}
use fos_operational_system_f.Sched.Queues.{sched_insert_ready}
use fos_operational_system_f.Sched.Setup.{queue_size, init_queue}

-- A channel, the kspinlock that guards what its processes wait for, as whether this CPU holds it,
-- and the scheduler.
pub record Channel : Type 0 where
  pub scheduler : Sched
  pub lk : Bool
  pub queue : List ℕ

abbrev pub Run : Type 0
Run = Outcome Channel Channel

-- An operation of the scheduler.
abbrev pub on_scheduler : Channel → Outcome Sched Sched → Run
on_scheduler c (ok s) = ok (record c { scheduler = s })
on_scheduler c (leaves e s) = leaves e (record c { scheduler = s })
on_scheduler c panic = panic
on_scheduler c fault = fault

-- acquire_kspinlock(lk) and release_kspinlock(lk)
unfoldable pub acquire_lk : Channel → Run
acquire_lk c =
    if c.lk
    then panic
    else ok (record c { lk = true; scheduler = record c.scheduler { ncli = c.scheduler.ncli + 1 } })

unfoldable pub release_lk : Channel → Run
release_lk c =
    if c.lk
    then ok
        (record c { lk = false; scheduler = record c.scheduler { ncli = c.scheduler.ncli - 1 } })
    else panic

-- init_channel; init_kspinlock leaves the lock free.
unfoldable pub init_channel : Channel → Channel
init_channel c = record c { queue = init_queue c.queue; lk = false }

-- sleep, up to the switch to the scheduler.
unfoldable pub sleep : Channel → Run
sleep c = on_scheduler c (acquire c.scheduler) >>= λ d. release_lk d >>= λ f.
    elim f.scheduler.proc [
      | none ↦ fault
      | some e ↦
          on_scheduler (record f { queue = enqueue f.queue e })
            (sched (set_status f.scheduler e blocked))
    ]

-- sleep, from the switch back to the process.
unfoldable pub awake : Channel → Run
awake c = acquire_lk c >>= λ d. on_scheduler d (release d.scheduler)

-- One process that wakes up.
unfoldable pub wakeup : Channel → Run
wakeup c =
    let r = dequeue c.queue in
    elim r.0 [
      | none ↦ fault
      | some e ↦ on_scheduler (record c { queue = r.1 }) (sched_insert_ready c.scheduler e)
    ]

unfoldable pub wakeup_one : Channel → Run
wakeup_one c = on_scheduler c (acquire c.scheduler) >>= λ d.
    (if ltb 0 (queue_size (some d.queue)) then wakeup d else ok d) >>= λ f.
    on_scheduler f (release f.scheduler)

-- The loop of wakeup_all.
unfoldable pub wakeup_loop : ℕ → Channel → Run
wakeup_loop zero c = ok c
wakeup_loop (suc n) c = wakeup c >>= wakeup_loop n

unfoldable pub wakeup_all : Channel → Run
wakeup_all c = on_scheduler c (acquire c.scheduler) >>= λ d.
    wakeup_loop (queue_size (some d.queue)) d >>= λ f. on_scheduler f (release f.scheduler)
