-- ===== src/Conc/Orders.antt =====
-- kern/conc: runs of processes that share a lock or a semaphore.
use fos_operational_system_f.Common.{◌≡◌, refl, true, false, [], arith, update}
use fos_operational_system_f.Common.Outcome.{ok}
use fos_operational_system_f.Conc.Channel.{acquire_lk, release_lk}
use fos_operational_system_f.Conc.Sleeplock.{Sleeplock, acquire_sleeplock, try_sleeplock}
use fos_operational_system_f.Conc.Semaphore.{Semaphore, wait_ksemaphore, try_ksemaphore}
use fos_operational_system_f.Conc.Examples.{free_lock, start_Runs}
use fos_operational_system_f.Conc.Exclusion
use fos_operational_system_f.Conc.Conserved

abbrev locked_by_one : Sleeplock
locked_by_one = record free_lock { locked = true; chan = record free_lock.chan { lk = false } }

abbrev idle : Exclusion.System
idle = record { lock = free_lock; place = λ p. Exclusion.outside }

locked_by_one-acquire : acquire_sleeplock free_lock ≡ ok locked_by_one
unfolding acquire_sleeplock try_sleeplock acquire_lk release_lk
locked_by_one-acquire = refl

abbrev one_inside : Exclusion.System
one_inside = record {
  lock = locked_by_one;
  place = update (λ p. Exclusion.outside) 1 Exclusion.inside;
}

mutual_exclusion_example : Exclusion.LockValid one_inside
mutual_exclusion_example =
    Exclusion.mutual_exclusion idle one_inside refl refl (λ p. refl)
      (Exclusion.step Exclusion.start
        (Exclusion.acquires 1 locked_by_one refl (start_Runs []) locked_by_one-acquire))

abbrev one_left : Semaphore
one_left = record { chan = free_lock.chan; count = 1 }

abbrev none_left : Semaphore
none_left = record { chan = free_lock.chan; count = 0 }

none_left-wait : wait_ksemaphore one_left ≡ ok none_left
unfolding wait_ksemaphore try_ksemaphore acquire_lk release_lk
none_left-wait = refl

abbrev not_taken : Conserved.System
not_taken = record { semaphore = one_left; taken = 0; given = 0 }

count_conserved_example :
    Conserved.CountValid 1 (record { semaphore = none_left; taken = 1; given = 0 })
count_conserved_example =
    Conserved.count_conserved 1 not_taken (record { semaphore = none_left; taken = 1; given = 0 })
      refl (omega arith) refl refl refl
      (Conserved.step Conserved.start (Conserved.takes 1 none_left (start_Runs []) none_left-wait))
