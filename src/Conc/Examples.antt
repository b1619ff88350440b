-- ===== src/Conc/Examples.antt =====
-- kern/conc: the theorems on locks and semaphores at concrete states.
use fos_operational_system_f.Common.{
  ℕ, ◌≡◌, refl, true, false, some, none, List, [], ◌∷◌, ◌++◌, ◌==◌, arith, if◌then◌else◌, contains,
}
use fos_operational_system_f.Common.Outcome.{panic, ok}
use fos_operational_system_f.Space.{Space}
use fos_operational_system_f.Sched.State.{Sched, ready, running, blocked, prirr, started}
use fos_operational_system_f.Conc.Channel.{Channel, wakeup_all}
use fos_operational_system_f.Conc.Sleeplock.{Sleeplock, acquire_sleeplock, holding_sleeplock}
use fos_operational_system_f.Conc.Semaphore.{Semaphore, signal_ksemaphore}
use fos_operational_system_f.Conc.Asleep.{Runs}
use fos_operational_system_f.Conc.Woken.{HaveQueues, of_priority, wakeup_all_lem}
use fos_operational_system_f.Conc.Held.{holding_sleeplock_lem}
use fos_operational_system_f.Conc.Counted.{Signals, signal_ksemaphore_lem}

abbrev pub no_space : Space
no_space = record {
  page_ws_list = [];
  wse = λ i. record { virtual_address = 0; time_stamp = 0; sweeps_counter = 0 };
  page_ws_max_size = 10;
  page_last_ws_element = none;
  pte = λ i. none;
}

-- Process 1 runs, processes 2 and 3 are blocked, and process 4 is ready. 2 and 4 have priority 1,
-- the others have priority 0.
abbrev pub some_sched : Sched
some_sched = record {
  envs = λ e. record {
    env_id = e;
    env_status = if e == 1 then running else if e == 4 then ready else blocked;
    priority = if e == 2 then 1 else if e == 4 then 1 else 0;
    n_ticks = 0;
    n_clocks = 0;
    space = no_space;
  };
  proc = some 1;
  env_new_queue = [];
  env_exit_queue = [];
  env_ready_queues = λ i. if i == 1 then 4 ∷ [] else [];
  num_of_ready_queues = 2;
  quantum = 10;
  clock = 10;
  starvation_threshold = 5;
  ticks = 0;
  scheduler_method = prirr;
  scheduler_status = started;
  lru_time = false;
  qlock = false;
  ncli = 0;
}

abbrev pub two_asleep : Channel
two_asleep = record { scheduler = some_sched; lk = false; queue = 3 ∷ 2 ∷ [] }

abbrev pub free_lock : Sleeplock
free_lock = record { chan = record two_asleep { queue = [] }; locked = false; pid = 0 }

abbrev held_lock : Sleeplock
held_lock = record { chan = two_asleep; locked = true; pid = 0 }

abbrev empty_semaphore : Semaphore
empty_semaphore = record { chan = two_asleep; count = 0 }

two_asleep-HaveQueues : HaveQueues (3 ∷ 2 ∷ []) some_sched
unfolding contains
two_asleep-HaveQueues = record { queues = λ e h. ground (arith, h) }

pub start_Runs : (q : List ℕ) → Runs 1 0 false (record two_asleep { queue = q })
start_Runs q = record { current = refl; unguarded = refl; nesting = refl; queues = refl }

wakeup_all_lem_example :
    (d : Channel) × (wakeup_all two_asleep ≡ ok d)
    × (d.queue ≡ [])
    × (d.lk ≡ false)
    × (d.scheduler.qlock ≡ false)
    × (d.scheduler.ncli ≡ 0)
    × (d.scheduler.proc ≡ some 1)
    × ((i : ℕ)
        → d.scheduler.env_ready_queues i
          ≡ of_priority i some_sched.envs (3 ∷ 2 ∷ []) ++ some_sched.env_ready_queues i)
    × ((e : ℕ) → contains e (3 ∷ 2 ∷ []) ≡ true → (d.scheduler.envs e).env_status ≡ ready)
    × (wakeup_all (record two_asleep { scheduler = record two_asleep.scheduler { qlock = true } })
        ≡ panic)
wakeup_all_lem_example = wakeup_all_lem two_asleep refl two_asleep-HaveQueues

holding_sleeplock_lem_example :
    (m : Sleeplock) × (acquire_sleeplock free_lock ≡ ok m)
    × (m.locked ≡ true)
    × ((c : Channel) × (holding_sleeplock m ≡ ok (false, c)))
holding_sleeplock_lem_example =
    holding_sleeplock_lem 1 free_lock (start_Runs []) refl refl (λ e. absurd (ground (arith, e)))

signal_ksemaphore_lem_example :
    (m : Semaphore) × (signal_ksemaphore empty_semaphore ≡ ok m) × Signals 1 empty_semaphore m
signal_ksemaphore_lem_example =
    signal_ksemaphore_lem 1 empty_semaphore (start_Runs (3 ∷ 2 ∷ [])) two_asleep-HaveQueues
