-- ===== src/Sched/Examples.antt =====
-- kern/cpu/sched.c, kern/cpu/sched_helpers.c: the scheduler's theorems at concrete states.
use fos_operational_system_f.Common.{
  ℕ, suc, ◌-◌, ◌<◌, ◌≡◌, ◌≢◌, refl, subst, true, false, none, some, [], ◌∷◌, arith, ◌==◌,
  if◌then◌else◌, contains, Distinct, ◌≤◌, inr,
}
use native.Mathlib.Decide.{ℕ_discrete}
use fos_operational_system_f.Common.Outcome.{ok}
use fos_operational_system_f.Common.Outcome.{to_scheduler, result_or}
use fos_operational_system_f.Sched.Setup.{Interrupts}
use fos_operational_system_f.Sched.Nesting.{push_times, pop_times, off, popcli_lem}
use fos_operational_system_f.Space.{Space}
use fos_operational_system_f.Sched.State.{Sched, Env, Status, ready, new, prirr, started}
use fos_operational_system_f.Sched.Clock.{clock_interrupt_handler}
use fos_operational_system_f.Sched.Promotion.{
  ReadyValid, stay, promoted, is_queued, after_queues, clock_interrupt_lem,
}
use fos_operational_system_f.Sched.Promotion.Sweep.{ticked}
use fos_operational_system_f.Sched.Starvation.{Waiting, Round, none_yet, one_more, starvation_bound}
use fos_operational_system_f.Sched.Exiting.{NewValid}

abbrev no_space : Space
no_space = record {
  page_ws_list = [];
  wse = λ i. record { virtual_address = 0; time_stamp = 0; sweeps_counter = 0 };
  page_ws_max_size = 10;
  page_last_ws_element = none;
  pte = λ i. none;
}

abbrev env_at : ℕ → Status → ℕ → ℕ → Env
env_at id st p n = record {
  env_id = id;
  env_status = st;
  priority = p;
  n_ticks = n;
  n_clocks = 0;
  space = no_space;
}

-- Process 1 runs on level 1, process 2 waits there, process 3 waits on level 2, and process 4
-- has not been run yet.
abbrev some_envs : ℕ → Env
some_envs e =
    if e == 1
    then env_at 1 ready 1 0
    else if e == 2
    then env_at 2 ready 1 6
    else if e == 3
    then env_at 3 ready 2 0
    else env_at 4 new 0 0

abbrev some_sched : Sched
some_sched = record {
  envs = some_envs;
  proc = some 1;
  env_new_queue = 4 ∷ [];
  env_exit_queue = [];
  env_ready_queues = λ i. if i == 1 then 2 ∷ [] else if i == 2 then 3 ∷ [] else [];
  num_of_ready_queues = 3;
  quantum = 10;
  clock = 10;
  starvation_threshold = 5;
  ticks = 0;
  scheduler_method = prirr;
  scheduler_status = started;
  lru_time = false;
  qlock = false;
  ncli = 0;
}

abbrev locked : Sched
locked = record some_sched { qlock = true; ncli = 1 }

one_at_most : (i : ℕ) → i < 3 → Distinct (some_sched.env_ready_queues i)
unfolding contains
one_at_most i lt = elim (ℕ_discrete i 1) [
  | yes e ↦ rw e (refl, tt)
  | no ne ↦ elim (ℕ_discrete i 2) [
    | yes e ↦ rw e (refl, tt)
    | no nf ↦ subst Distinct (nothing ne nf) tt
  ]
]
  where
    nothing : i ≢ 1 → i ≢ 2 → [] ≡ some_sched.env_ready_queues i
    nothing ne nf = ground arith

some_sched-ReadyValid : ReadyValid some_sched
unfolding contains
some_sched-ReadyValid = record {
  free = refl;
  levels = λ i lt x m. ground arith;
  distinct = one_at_most;
}

clock_interrupt_lem_example :
    (t : Sched) × (clock_interrupt_handler some_sched ≡ after_queues t)
    × (t ≡ record some_sched { envs = t.envs; env_ready_queues = t.env_ready_queues })
    × ((j : ℕ) → suc j < 3 → t.env_ready_queues j ≡ promoted some_sched j)
    × ((j : ℕ) → suc j ≡ 3 → t.env_ready_queues j ≡ stay some_sched j)
    × ((x : ℕ)
        → t.envs x ≡ (if is_queued some_sched 2 x then ticked 5 (some_envs x) else some_envs x))
clock_interrupt_lem_example =
    clock_interrupt_lem some_sched refl some_sched-ReadyValid (ground arith)

-- Process 1 runs, and process 3 waits on level `p` with `n` ticks; the threshold is 0.
abbrev waits_at : ℕ → ℕ → Sched
waits_at p n = record some_sched {
  envs = λ e. if e == 3 then env_at 3 ready p n else env_at e ready 1 0;
  env_ready_queues = λ i. if i == p then 3 ∷ [] else [];
  starvation_threshold = 0;
}

one_waits : (p : ℕ) → Distinct (if p == p then 3 ∷ [] else [])
unfolding contains
one_waits p = ground arith

waits_at-Waiting : (p n : ℕ) → p < 3 → Waiting 3 (waits_at p n)
unfolding contains
waits_at-Waiting p n lt = record {
  valid = record {
    free = refl;
    levels = λ i h x m. ground (arith, m);
    distinct = λ i h. elim (ℕ_discrete i p) [
      | yes e ↦ rw e (one_waits p)
      | no ne ↦ subst Distinct {x = []} (ground (arith, ne)) tt
    ];
  };
  method = refl;
  level = lt;
  queued = ground arith;
  not_running = λ e. ground (arith, e);
}

-- Two clock interrupts, after each of which process 1 is picked again.
first-Round : Round 3 (waits_at 2 0) (waits_at 2 1)
unfolding clock_interrupt_handler contains
first-Round = record {
  interrupted = result_or (waits_at 2 0) (clock_interrupt_handler (waits_at 2 0));
  handled = inr (to_scheduler, refl);
  spared = record { env = refl; thresh = refl };
  waiting = waits_at-Waiting 2 1 (ground arith);
}

second-Round : Round 3 (waits_at 2 1) (waits_at 1 0)
unfolding clock_interrupt_handler contains
second-Round = record {
  interrupted = result_or (waits_at 2 1) (clock_interrupt_handler (waits_at 2 1));
  handled = inr (to_scheduler, refl);
  spared = record { env = refl; thresh = refl };
  waiting = waits_at-Waiting 1 0 (ground arith);
}

starvation_bound_example :
    (((waits_at 1 0).envs 3).priority ≡ 2 - 1)
    × (contains 3 ((waits_at 1 0).env_ready_queues (2 - 1)) ≡ true)
starvation_bound_example =
    starvation_bound (waits_at 2 0) (waits_at 1 0) 3 1 (waits_at-Waiting 2 0 (ground arith))
      (ground arith) refl (ground arith)
      (one_more 1 (waits_at 2 0) (waits_at 2 1) (waits_at 1 0) first-Round (
        one_more 0 (waits_at 2 1) (waits_at 1 0) (waits_at 1 0) second-Round
          (none_yet (waits_at 1 0))))

four_new : contains 4 some_sched.env_new_queue ≡ true
unfolding contains
four_new = refl

some_sched-NewValid : NewValid some_sched
unfolding contains
some_sched-NewValid = record { are_new = λ e m. ground arith; distinct = (refl, tt) }

abbrev interrupts_on : Interrupts
interrupts_on = record { enabled = true; intena = false; ncli = 0 }

popcli_lem_example :
    ((k : ℕ) → k ≤ 2 → pop_times k (push_times (suc 2) interrupts_on) ≡ ok (off true (suc 2 - k)))
    × (pop_times (suc 2) (push_times (suc 2) interrupts_on)
        ≡ ok (record { enabled = true; intena = true; ncli = 0 }))
popcli_lem_example = popcli_lem 2 interrupts_on refl
