-- ===== src/Sched/Select.antt =====
-- kern/cpu/sched.c: the schedulers, their initialisation, and the two halves of a round of
-- fos_scheduler, around its context switch; sched and yield of kern/proc/user_environment.c.
use fos_operational_system_f.Common.{
  ℕ, zero, suc, ◌+◌, ◌%◌, Bool, true, false, not, ◌&&◌, Option, none, some, [], ◌∷◌, ◌==◌, ltb,
  if◌then◌else◌, update,
}
use fos_operational_system_f.Common.Outcome.{
  Outcome, ok, panic, fault, leaves, to_scheduler, assert_then, ◌>>=◌,
}
use fos_operational_system_f.Sched.State.{
  Sched, Run, rr, prirr, ready, running, blocked, stopped, status_eq, acquire, release, enqueue,
  dequeue, set_status, set_ready,
}

-- A pick: the process to run next, if there is one.
abbrev pub Pick : Type 0
Pick = Outcome Sched (Option ℕ × Sched)

unfoldable pub set_quantum : Sched → Sched
set_quantum s = record s { clock = s.quantum }

-- `enqueue(&env_ready_queues[i], cur_env)` if a process is on the CPU.
unfoldable pub requeue : Sched → Option ℕ → ℕ → Run
unfolding enqueue
requeue s none i = ok s
requeue s (some e) i =
    if ltb i s.num_of_ready_queues
    then ok (set_ready s i (enqueue (s.env_ready_queues i) e))
    else fault

unfoldable pub fos_scheduler_rr : Sched → Pick
unfolding requeue dequeue set_quantum
fos_scheduler_rr s = assert_then s.qlock (do
  t ← requeue s s.proc 0
  let (e, q) = dequeue (t.env_ready_queues 0)
  ok (e, set_quantum (set_ready t 0 q)))

-- The `for` of fos_scheduler_PRIRR, `n` queues before the end.
unfoldable pub pick_loop : ℕ → ℕ → Sched → Option ℕ × Sched
unfolding dequeue
pick_loop zero i s = (none, s)
pick_loop (suc n) i s = elim (s.env_ready_queues i) [
  | [] ↦ pick_loop n (i + 1) s
  | e ∷ q ↦ let (x, r) = dequeue (e ∷ q) in (x, set_ready s i r)
]

abbrev pub current_priority : Sched → ℕ
current_priority s = elim s.proc [ none ↦ 0 | some e ↦ (s.envs e).priority ]

unfoldable pub fos_scheduler_prirr : Sched → Pick
unfolding requeue pick_loop set_quantum
fos_scheduler_prirr s = assert_then s.qlock (do
  t ← requeue s s.proc (current_priority s)
  let (e, u) = pick_loop t.num_of_ready_queues 0 t
  ok (e, set_quantum u))

-- `sched_next[scheduler_method]()`; the MLFQ and BSD schedulers are not implemented.
unfoldable pub sched_next : Sched → Pick
unfolding fos_scheduler_rr fos_scheduler_prirr
sched_next s = elim s.scheduler_method [
  | rr ↦ fos_scheduler_rr s
  | prirr ↦ fos_scheduler_prirr s
  | _ ↦ panic
]

-- Up to the context switch: the picked process is put on the CPU, as RUNNING.
unfoldable pub dispatch : Sched → Pick
unfolding sched_next
dispatch s = sched_next s >>= λ r. elim r.0 [
  | none ↦ ok (none, r.1)
  | some e ↦ ok (some e, set_status (record r.1 { proc = some e }) e running)
]

-- After the context switch back: only a READY process stays on the CPU, to be queued again.
unfoldable pub switched_back : Sched → Run
switched_back s = assert_then s.qlock (elim s.proc [
  | none ↦ fault
  | some e ↦
      assert_then (not (status_eq (s.envs e).env_status running))
        (ok (if status_eq (s.envs e).env_status ready then s else record s { proc = none }))
])

-- Is any of the `n` entries of `envs` BLOCKED? If none is, the outer loop ends in the prompt.
unfoldable pub is_any_blocked : ℕ → Sched → Bool
is_any_blocked zero s = false
is_any_blocked (suc n) s =
    if status_eq (s.envs n).env_status blocked then true else is_any_blocked n s

-- sched: the process gives the CPU to the scheduler.
unfoldable pub sched : Sched → Run
sched s = elim s.proc [
  | none ↦ panic
  | some e ↦
      assert_then (s.qlock && (s.ncli == 1) && not (status_eq (s.envs e).env_status running))
        (leaves to_scheduler s)
]

unfoldable pub yield : Sched → Run
unfolding acquire sched
yield s = do t ← acquire s; elim t.proc [ none ↦ panic | some e ↦ sched (set_status t e ready) ]

-- sched_delete_ready_queues: takes the lock to free the arrays.
unfoldable pub sched_delete_ready_queues : Sched → Run
unfolding acquire release
sched_delete_ready_queues s = acquire s >>= release

-- `allocated` says whether both kmallocs succeed; the results are used unchecked.
unfoldable pub sched_init_rr : Bool → ℕ → Sched → Run
unfolding sched_delete_ready_queues
sched_init_rr allocated quantum s = do
  t ← sched_delete_ready_queues (record s { num_of_ready_queues = 1 })
  if allocated
      then ok (record t {
        quantum = quantum % 256;
        clock = quantum % 256;
        env_ready_queues = update t.env_ready_queues 0 [];
        scheduler_status = stopped;
        scheduler_method = rr;
      })
      else fault

unfoldable pub sched_init_prirr : Bool → ℕ → ℕ → ℕ → Sched → Run
unfolding sched_delete_ready_queues
sched_init_prirr allocated priorities quantum thresh s = do
  let n = priorities % 256
  t ←
      sched_delete_ready_queues
        (record s { num_of_ready_queues = n; starvation_threshold = thresh })
  if allocated
      then ok (record t {
        quantum = quantum % 256;
        clock = quantum % 256;
        env_ready_queues = λ i. if ltb i n then [] else t.env_ready_queues i;
        scheduler_status = stopped;
        scheduler_method = prirr;
      })
      else fault
