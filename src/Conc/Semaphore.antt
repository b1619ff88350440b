-- ===== src/Conc/Semaphore.antt =====
-- kern/conc/ksemaphore.c
use fos_operational_system_f.Common.{ℕ, ◌+◌, ◌-◌, ◌%◌, ◌^◌, Bool, ◌&&◌, some, ltb, if◌then◌else◌}
use fos_operational_system_f.Common.Outcome.{Outcome, ok, leaves, panic, fault, ◌>>=◌}
use fos_operational_system_f.Sched.Setup.{queue_size}
use fos_operational_system_f.Conc.Channel.{
  Channel, acquire_lk, release_lk, init_channel, sleep, awake, wakeup_all,
}

-- `struct ksemaphore`; its guard `lk` stands in the channel. `count` is an int, as a 32-bit word.
pub record Semaphore : Type 0 where
  pub chan : Channel
  pub count : ℕ

abbrev pub Run : Type 0
Run = Outcome Semaphore Semaphore

-- An operation of the channel.
abbrev pub on_chan : Semaphore → Outcome Channel Channel → Run
on_chan k (ok c) = ok (record k { chan = c })
on_chan k (leaves e c) = leaves e (record k { chan = c })
on_chan k panic = panic
on_chan k fault = fault

unfoldable pub init_ksemaphore : ℕ → Semaphore → Semaphore
init_ksemaphore value k = record { chan = init_channel k.chan; count = value }

-- count > 0
abbrev pub is_positive : ℕ → Bool
is_positive c = ltb 0 c && ltb c (2 ^ 31)

-- A turn of the loop of wait_ksemaphore and, where the loop ends, the rest of the function.
unfoldable pub try_ksemaphore : Semaphore → Run
try_ksemaphore k =
    if is_positive k.count
    then on_chan (record k { count = k.count - 1 }) (release_lk k.chan)
    else on_chan k (sleep k.chan)

unfoldable pub wait_ksemaphore : Semaphore → Run
wait_ksemaphore k = on_chan k (acquire_lk k.chan) >>= try_ksemaphore

-- wait_ksemaphore, from the switch back out of `sleep`.
unfoldable pub resume_ksemaphore : Semaphore → Run
resume_ksemaphore k = on_chan k (awake k.chan) >>= try_ksemaphore

unfoldable pub signal_ksemaphore : Semaphore → Run
signal_ksemaphore k = on_chan k (acquire_lk k.chan) >>= λ m.
    on_chan (record m { count = (m.count + 1) % 2 ^ 32 })
      (if ltb 0 (queue_size (some m.chan.queue)) then wakeup_all m.chan else ok m.chan)
    >>= λ n. on_chan n (release_lk n.chan)
