-- ===== src/Sched/Life.antt =====
-- kern/cpu/sched_helpers.c: processes that are created, run, exited and killed by their id.
use fos_operational_system_f.Common.{
  ℕ, zero, suc, ◌+◌, Bool, true, false, ◌||◌, Option, none, some, List, [], ◌∷◌, ◌==◌,
  if◌then◌else◌, length,
}
use fos_operational_system_f.Common.Outcome.{Outcome, ok, panic, leaves, to_scheduler, ◌>>=◌}
use fos_operational_system_f.Sched.State.{
  Sched, Run, stopped, started, acquire, release, dequeue, remove_from_queue, find_env_in_queue,
  set_ready,
}
use fos_operational_system_f.Sched.Queues.{
  sched_insert_ready, sched_insert_new, sched_remove_new, sched_insert_exit,
}
use fos_operational_system_f.Sched.Select.{sched}

unfoldable pub sched_new_env : Sched → ℕ → Run
unfolding acquire release sched_insert_new
sched_new_env s e = do t ← acquire s; u ← sched_insert_new t e; release u

-- fos_scheduler does not return, so the second release is reached only if it is running already.
unfoldable pub sched_run_env : Sched → ℕ → Run
unfolding acquire release sched_remove_new sched_insert_ready find_env_in_queue
sched_run_env s id = do
  t ← acquire s
  elim (find_env_in_queue t.envs t.env_new_queue id) [
    | none ↦ release t
    | some e ↦ do
      u ← sched_remove_new t e
      v ← sched_insert_ready u e
      w ← release v
      elim w.scheduler_status [ stopped ↦ leaves to_scheduler w | started ↦ ok w ]
  ]

-- The loop over the NEW queue in sched_exit_env. It does not stop at a match, and it ends with a
-- null `ptr_env`, so that only whether there was a match comes out of it.
unfoldable pub exit_new_loop : List ℕ → Sched → ℕ → Bool → Outcome Sched (Bool × Sched)
exit_new_loop [] s id found = ok (found, s)
exit_new_loop (e ∷ es) s id found = elim ((s.envs e).env_id == id) [
  | true ↦ sched_remove_new s e >>= λ t. exit_new_loop es t id true
  | false ↦ exit_new_loop es s id found
]

-- The search of the ready queues, which unlinks what it finds.
unfoldable pub take_ready_loop : ℕ → ℕ → Sched → ℕ → Outcome Sched (Option ℕ × Sched)
unfolding find_env_in_queue remove_from_queue
take_ready_loop zero i s id = ok (none, s)
take_ready_loop (suc n) i s id = elim (find_env_in_queue s.envs (s.env_ready_queues i) id) [
  | none ↦ take_ready_loop n (i + 1) s id
  | some e ↦ remove_from_queue (s.env_ready_queues i) e >>= λ q. ok (some e, set_ready s i q)
]

-- From `assert(cur_env != NULL)` on: `found` and `ptr_env` are what the searches left.
unfoldable pub exit_found : Sched → ℕ → Bool → Option ℕ → Run
unfolding sched_insert_exit sched
exit_found s id found ptr = elim s.proc [
  | none ↦ panic
  | some cur ↦
      let is_cur = (s.envs cur).env_id == id in
      let ptr' : Option ℕ = if found then ptr else (if is_cur then some cur else none) in
      if found || is_cur
      then elim ptr' [
        | none ↦ panic
        | some e ↦ do t ← sched_insert_exit s e; if is_cur then sched t else ok t
      ]
      else ok s
]

unfoldable pub sched_exit_env : Sched → ℕ → Run
unfolding acquire release exit_new_loop sched_remove_new take_ready_loop exit_found
sched_exit_env s id = do
  t ← (if s.qlock then ok s else acquire s)
  r ← exit_new_loop t.env_new_queue t id false
  u ←
      (if r.0
        then exit_found r.1 id true none
        else take_ready_loop r.1.num_of_ready_queues 0 r.1 id >>= λ p. elim p.0 [
          | none ↦ exit_found p.1 id false none
          | some e ↦ exit_found p.1 id true (some e)
        ])
  if s.qlock then ok u else release u

-- env_exit
unfoldable pub env_exit : Sched → Run
unfolding sched_exit_env
env_exit s = elim s.proc [ none ↦ panic | some e ↦ sched_exit_env s (s.envs e).env_id ]

-- sched_run_all: the NEW queue is emptied oldest first.
unfoldable pub run_all_loop : ℕ → Sched → Run
unfolding dequeue sched_insert_ready
run_all_loop zero s = ok s
run_all_loop (suc n) s =
    let r = dequeue s.env_new_queue in
    elim r.0 [
      | none ↦ panic
      | some e ↦ sched_insert_ready (record s { env_new_queue = r.1 }) e >>= run_all_loop n
    ]

unfoldable pub sched_run_all : Sched → Run
unfolding acquire release run_all_loop
sched_run_all s = do
  t ← acquire s
  u ← run_all_loop (length t.env_new_queue) t
  v ← release u
  elim v.scheduler_status [ stopped ↦ leaves to_scheduler v | started ↦ panic ]

-- sched_exit_all_ready_envs
unfoldable pub exit_queue_loop : List ℕ → ℕ → Sched → Run
unfolding remove_from_queue sched_insert_exit
exit_queue_loop [] i s = ok s
exit_queue_loop (e ∷ es) i s = do
  q ← remove_from_queue (s.env_ready_queues i) e
  t ← sched_insert_exit (set_ready s i q) e
  exit_queue_loop es i t

unfoldable pub exit_ready_loop : ℕ → ℕ → Sched → Run
unfolding exit_queue_loop
exit_ready_loop zero i s = ok s
exit_ready_loop (suc n) i s =
    exit_queue_loop (s.env_ready_queues i) i s >>= exit_ready_loop n (i + 1)

unfoldable pub sched_exit_all_ready_envs : Sched → Run
unfolding acquire release exit_ready_loop
sched_exit_all_ready_envs s = do
  t ← acquire s
  u ← exit_ready_loop t.num_of_ready_queues 0 t
  release u
