-- ===== src/Conc/Sleeplock.antt =====
-- kern/conc/sleeplock.c
use fos_operational_system_f.Common.{ℕ, Bool, true, false, none, some, ltb, ◌==◌, if◌then◌else◌}
use fos_operational_system_f.Common.Outcome.{Outcome, ok, leaves, panic, fault, ◌>>=◌}
use fos_operational_system_f.Sched.Setup.{queue_size}
use fos_operational_system_f.Conc.Channel.{
  Channel, acquire_lk, release_lk, init_channel, sleep, awake, wakeup_all,
}

-- `struct sleeplock`; its guard `lk` stands in the channel.
pub record Sleeplock : Type 0 where
  pub chan : Channel
  pub locked : Bool
  pub pid : ℕ

abbrev pub Run : Type 0
Run = Outcome Sleeplock Sleeplock

-- An operation of the channel.
abbrev pub on_chan : Sleeplock → Outcome Channel Channel → Run
on_chan l (ok c) = ok (record l { chan = c })
on_chan l (leaves e c) = leaves e (record l { chan = c })
on_chan l panic = panic
on_chan l fault = fault

unfoldable pub init_sleeplock : Sleeplock → Sleeplock
init_sleeplock l = record { chan = init_channel l.chan; locked = false; pid = 0 }

-- A turn of the loop of acquire_sleeplock and, where the loop ends, the rest of the function.
unfoldable pub try_sleeplock : Sleeplock → Run
try_sleeplock l =
    if l.locked
    then on_chan l (sleep l.chan)
    else on_chan (record l { locked = true }) (release_lk l.chan)

unfoldable pub acquire_sleeplock : Sleeplock → Run
acquire_sleeplock l = on_chan l (acquire_lk l.chan) >>= try_sleeplock

-- acquire_sleeplock, from the switch back out of `sleep`.
unfoldable pub resume_sleeplock : Sleeplock → Run
resume_sleeplock l = on_chan l (awake l.chan) >>= try_sleeplock

unfoldable pub release_sleeplock : Sleeplock → Run
release_sleeplock l = on_chan l (acquire_lk l.chan) >>= λ m.
    on_chan m (if ltb 0 (queue_size (some m.chan.queue)) then wakeup_all m.chan else ok m.chan)
    >>= λ n. on_chan (record n { locked = false }) (release_lk n.chan)

-- holding_sleeplock, without its local variables: what it returns, and the channel.
unfoldable pub holding_sleeplock : Sleeplock → Outcome Channel (Bool × Channel)
holding_sleeplock l = acquire_lk l.chan >>= λ c.
    (if l.locked
      then elim c.scheduler.proc [
        | none ↦ fault
        | some e ↦ ok (l.pid == (c.scheduler.envs e).env_id)
      ]
      else ok false)
    >>= λ r. release_lk c >>= λ d. ok (r, d)
