-- ===== src/Sched/Clock.antt =====
-- kern/cpu/sched.c, clock_interrupt_handler, and the priority calls of kern/cpu/sched_helpers.c.
use fos_operational_system_f.Common.{
  ℕ, zero, suc, ◌+◌, ◌-◌, ◌%◌, ◌^◌, Bool, true, false, ◌||◌, Option, none, some, List, [], ◌∷◌,
  ◌==◌, ltb, leb, if◌then◌else◌,
}
use fos_operational_system_f.Common.Outcome.{ok, panic, fault, ◌>>=◌}
use fos_operational_system_f.Space.Aging.{update_ws_time_stamps}
use fos_operational_system_f.Sched.State.{
  Sched, Env, Run, free, ready, prirr, status_eq, acquire, release, remove_from_queue, set_env,
  set_priority, set_ticks, set_ready,
}
use fos_operational_system_f.Sched.Queues.{sched_insert_ready}
use fos_operational_system_f.Sched.Select.{yield}

-- Take a READY process out of its queue, change its priority and queue it again; the lock is
-- taken and dropped round each of the two halves.
unfoldable pub move_ready : Sched → ℕ → ℕ → Run
unfolding acquire release remove_from_queue sched_insert_ready
move_ready s e p = do
  a ← acquire s
  q ← remove_from_queue (a.env_ready_queues (a.envs e).priority) e
  b ← release (set_ready a (a.envs e).priority q)
  c ← acquire (set_priority b e p)
  d ← sched_insert_ready c e
  release d

-- The body of the loop over a ready queue.
unfoldable pub tick_env : Sched → ℕ → Run
unfolding move_ready
tick_env s e =
    if (s.envs e).priority == 0
    then ok s
    else if ltb s.starvation_threshold (s.envs e).n_ticks
    then (do t ← move_ready s e ((s.envs e).priority - 1); ok (set_ticks t e 0))
    else ok (set_ticks s e (((s.envs e).n_ticks + 1) % 2 ^ 32))

-- LIST_FOREACH keeps the next element before the body runs, so it walks the queue as it was.
unfoldable pub tick_queue : List ℕ → Sched → Run
tick_queue [] s = ok s
tick_queue (e ∷ es) s = tick_env s e >>= tick_queue es

unfoldable pub tick_queues : ℕ → ℕ → Sched → Run
tick_queues zero i s = ok s
tick_queues (suc n) i s = tick_queue (s.env_ready_queues i) s >>= tick_queues n (i + 1)

abbrev pub is_prirr : Sched → Bool
is_prirr s = elim s.scheduler_method [ prirr ↦ true | _ ↦ false ]

-- What the handler does to the running process before it yields.
unfoldable pub charge_clock : Sched → ℕ → Run
charge_clock s e =
    let v = s.envs e in
    let w : Env = record v { n_clocks = (v.n_clocks + 1) % 2 ^ 32 } in
    if s.lru_time
    then (update_ws_time_stamps w.space >>= λ m. ok (set_env s e (record w { space = m })))
    else ok (set_env s e w)

unfoldable pub clock_interrupt_handler : Sched → Run
unfolding tick_queues tick_queue tick_env charge_clock yield
clock_interrupt_handler s = do
  t ← (if is_prirr s then tick_queues s.num_of_ready_queues 0 s else ok s)
  let u : Sched = record t { ticks = t.ticks + 1 }
  elim u.proc [ none ↦ ok u | some e ↦ charge_clock u e >>= yield ]

-- envid2env with checkperm 0. `width` is NEARPOW2NENV; the outer `none` is E_BAD_ENV, the inner
-- one the null pointer that id 0 yields on an idle CPU.
unfoldable pub envid2env : ℕ → Sched → ℕ → Option (Option ℕ)
envid2env width s id =
    if id == 0
    then some s.proc
    else (let e = id % width in
        if status_eq (s.envs e).env_status free
        then none
        else if (s.envs e).env_id == id
        then some (some e)
        else none)

-- The priority is an int, given by its 32 bits: from 2 ^ 31 on it is negative.
unfoldable pub env_set_priority : ℕ → Sched → ℕ → ℕ → Run
unfolding envid2env move_ready
env_set_priority width s id priority =
    if leb (2 ^ 31) priority || leb s.num_of_ready_queues priority
    then panic
    else elim (envid2env width s id) [
      | none ↦ ok s
      | some none ↦ fault
      | some (some e) ↦
          if status_eq (s.envs e).env_status ready
          then move_ready s e priority
          else ok (set_priority s e priority)
    ]

unfoldable pub sched_set_starv_thresh : Sched → ℕ → Sched
sched_set_starv_thresh s thresh = record s { starvation_threshold = thresh }
