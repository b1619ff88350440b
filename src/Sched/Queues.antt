-- ===== src/Sched/Queues.antt =====
-- kern/cpu/sched_helpers.c: moving a process in and out of the NEW, READY and EXIT queues.
use fos_operational_system_f.Common.{ℕ, zero, suc, ◌+◌, none, some, ltb, if◌then◌else◌}
use fos_operational_system_f.Common.Outcome.{ok, fault, assert_then, ◌>>=◌}
use fos_operational_system_f.Sched.State.{
  Sched, Run, ready, new, exit, unknown, status_eq, enqueue, remove_from_queue, find_env_in_queue,
  set_env, set_status, set_ready,
}

-- sched_insert_ready
unfoldable pub sched_insert_ready : Sched → ℕ → Run
unfolding enqueue
sched_insert_ready s e = assert_then s.qlock (
    let t = set_env s e (record (s.envs e) { n_ticks = 0; env_status = ready }) in
    let p = (s.envs e).priority in
    if ltb p s.num_of_ready_queues
    then ok (set_ready t p (enqueue (s.env_ready_queues p) e))
    else fault)

-- The loop of sched_remove_ready, `n` queues before the end.
unfoldable pub remove_ready_loop : ℕ → ℕ → Sched → ℕ → Run
remove_ready_loop zero i s e = ok s
remove_ready_loop (suc n) i s e =
    elim (find_env_in_queue s.envs (s.env_ready_queues i) (s.envs e).env_id) [
      | none ↦ remove_ready_loop n (i + 1) s e
      | some _ ↦ do
        q ← remove_from_queue (s.env_ready_queues i) e
        ok (set_status (set_ready s i q) e unknown)
    ]

unfoldable pub sched_remove_ready : Sched → ℕ → Run
unfolding remove_ready_loop find_env_in_queue remove_from_queue
sched_remove_ready s e = assert_then s.qlock (
    assert_then (status_eq (s.envs e).env_status ready)
      (remove_ready_loop s.num_of_ready_queues 0 s e))

unfoldable pub sched_insert_new : Sched → ℕ → Run
unfolding enqueue
sched_insert_new s e =
    assert_then s.qlock
      (let t = set_status s e new in ok (record t { env_new_queue = enqueue s.env_new_queue e }))

unfoldable pub sched_remove_new : Sched → ℕ → Run
unfolding remove_from_queue
sched_remove_new s e = assert_then s.qlock (
    assert_then (status_eq (s.envs e).env_status new) (do
      q ← remove_from_queue s.env_new_queue e
      let t = set_status s e unknown
      ok (record t { env_new_queue = q })))

-- cleanup_buffers, which runs first if buffering is on, touches the frame lists alone.
unfoldable pub sched_insert_exit : Sched → ℕ → Run
unfolding enqueue
sched_insert_exit s e =
    assert_then s.qlock
      (let t = set_status s e exit in ok (record t { env_exit_queue = enqueue s.env_exit_queue e }))

unfoldable pub sched_remove_exit : Sched → ℕ → Run
unfolding remove_from_queue
sched_remove_exit s e = assert_then s.qlock (
    assert_then (status_eq (s.envs e).env_status exit) (do
      q ← remove_from_queue s.env_exit_queue e
      let t = set_status s e unknown
      ok (record t { env_exit_queue = q })))
