-- ===== src/Sched/Exiting.antt =====
-- sched_exit_env of kern/cpu/sched_helpers.c at a process of the NEW queue.
use fos_operational_system_f.Common.{
  ℕ, ◌+◌, ◌≡◌, ◌≢◌, refl, sym, subst, ◌∙◌, inl, inr, Bool-cases, erase-Distinct, Bool, true, false,
  ◌||◌, none, List, [], ◌∷◌, arith, ◌==◌, update, contains, erase, Distinct, contains-erase,
}
use native.Mathlib.Decide.{ℕ_discrete}
use fos_operational_system_f.Common.Outcome.{ok, panic}
use fos_operational_system_f.Sched.State.{Sched, Env, Status, new, acquire}
use fos_operational_system_f.Sched.Queues.{sched_remove_new}
use fos_operational_system_f.Sched.Life.{exit_new_loop, exit_found, sched_exit_env}

-- The NEW queue holds NEW processes, each once.
pub record NewValid (s : Sched) : Type 0 where
  pub are_new : (e : ℕ) → contains e s.env_new_queue ≡ true → (s.envs e).env_status ≡ new
  pub distinct : Distinct s.env_new_queue

-- The loop is left with `found` set if some process of the list has the id.
abbrev some_id : (ℕ → Env) → List ℕ → ℕ → Bool
some_id envs [] id = false
some_id envs (e ∷ es) id = ((envs e).env_id == id) || some_id envs es id

-- What the loop relies on for the rest `es` of the queue.
record Rest (es : List ℕ) (s : Sched) : Type 0 where
  lock : s.qlock ≡ true
  here : (e : ℕ) → contains e es ≡ true → contains e s.env_new_queue ≡ true
  status : (e : ℕ) → contains e es ≡ true → (s.envs e).env_status ≡ new
  once : Distinct es
  distinct : Distinct s.env_new_queue

record Removed (s : Sched) (e : ℕ) (t : Sched) : Type 0 where
  runs : sched_remove_new s e ≡ ok t
  lock : t.qlock ≡ s.qlock
  queue : t.env_new_queue ≡ erase e s.env_new_queue
  other : (x : ℕ) → x ≢ e → t.envs x ≡ s.envs x
  ids : (x : ℕ) → (t.envs x).env_id ≡ (s.envs x).env_id

sched_remove_new_lem :
    (s : Sched) (e : ℕ)
    → s.qlock ≡ true
    → contains e s.env_new_queue ≡ true
    → (s.envs e).env_status ≡ new
    → (t : Sched) × Removed s e t
unfolding sched_remove_new
sched_remove_new_lem s e l c st = (
  record s {
    envs = update s.envs e (record (s.envs e) { env_status = Status.unknown });
    env_new_queue = erase e s.env_new_queue;
  },
  record {
    runs = ground arith;
    lock = refl;
    queue = refl;
    other = λ x n. ground arith;
    ids = λ x. ground arith;
  },
)

head-Removed : (e : ℕ) (es : List ℕ) (s : Sched) → Rest (e ∷ es) s → (t : Sched) × Removed s e t
unfolding contains
head-Removed e es s r =
    sched_remove_new_lem s e r.lock (r.here e (ground arith)) (r.status e (ground arith))

Rest-Removed : (e : ℕ) (es : List ℕ) (s t : Sched) → Rest (e ∷ es) s → Removed s e t → Rest es t
unfolding contains
Rest-Removed e es s t r m = record {
  lock = m.lock ∙ r.lock;
  here = λ x h.
      ground (arith, r.here x, r.once.0, m.queue, contains-erase x e s.env_new_queue r.distinct);
  status = λ x h. elim (ℕ_discrete x e) [
    | yes q ↦ absurd (ground (arith, q, r.once.0))
    | no n ↦ ground (arith, m.other x n, r.status x)
  ];
  once = r.once.1;
  distinct = subst Distinct (sym m.queue) (erase-Distinct e s.env_new_queue r.distinct);
}

Rest-skipped : (e : ℕ) (es : List ℕ) (s : Sched) → Rest (e ∷ es) s → Rest es s
unfolding contains
Rest-skipped e es s r = record {
  lock = r.lock;
  here = λ x h. r.here x (ground arith);
  status = λ x h. r.status x (ground arith);
  once = r.once.1;
  distinct = r.distinct;
}

exit_new_loop_lem :
    (es : List ℕ) (s : Sched) (id : ℕ) (found : Bool)
    → Rest es s
    → (t : Sched) × (exit_new_loop es s id found ≡ ok (found || some_id s.envs es id, t))
unfolding exit_new_loop
exit_new_loop_lem [] s id found r = (s, ground arith)
exit_new_loop_lem (e ∷ es) s id found r = elim (Bool-cases ((s.envs e).env_id == id)) [
  | inl hit ↦
      let (t, m) = head-Removed e es s r in
      let (u, q) = exit_new_loop_lem es t id true (Rest-Removed e es s t r m) in
      (u, ground (arith, hit, m.runs, q))
  | inr miss ↦
      let (u, q) = exit_new_loop_lem es s id found (Rest-skipped e es s r) in
      (u, ground (arith, miss, q))
]

some_id_of_mem :
    (envs : ℕ → Env) (es : List ℕ) (e id : ℕ)
    → contains e es ≡ true
    → (envs e).env_id ≡ id
    → some_id envs es id ≡ true
unfolding contains
some_id_of_mem envs [] e id h k = ground arith
some_id_of_mem envs (x ∷ es) e id h k = ground (arith, some_id_of_mem envs es e id)

exit_found_null : (t : Sched) (id : ℕ) → exit_found t id true none ≡ panic
unfolding exit_found
exit_found_null t id = ground arith

held_panics :
    (t : Sched) (e id : ℕ)
    → t.qlock ≡ true
    → NewValid t
    → contains e t.env_new_queue ≡ true
    → (t.envs e).env_id ≡ id
    → (u : Sched) × (exit_new_loop t.env_new_queue t id false ≡ ok (true, u))
held_panics t e id l v c k =
    let (u, q) = exit_new_loop_lem t.env_new_queue t id false (record {
      lock = l;
      here = λ x h. h;
      status = v.are_new;
      once = v.distinct;
      distinct = v.distinct;
    }) in
    (u, ground (arith, q, some_id_of_mem t.envs t.env_new_queue e id c k))

-- To exit a process that has not been run yet stops the kernel: whatever else the state is, with
-- a well-formed NEW queue that holds a process with the id, sched_exit_env panics.
sched_exit_env_new :
    (s : Sched) (e id : ℕ)
    → NewValid s
    → contains e s.env_new_queue ≡ true
    → (s.envs e).env_id ≡ id
    → sched_exit_env s id ≡ panic
unfolding sched_exit_env acquire
sched_exit_env_new s e id v c k = elim (Bool-cases s.qlock) [
  | inl held ↦
      let (u, q) = held_panics s e id held v c k in ground (arith, held, q, exit_found_null u id)
  | inr free ↦
      let t : Sched = record s { qlock = true; ncli = s.ncli + 1 } in
      let (u, q) =
        held_panics t e id refl (record { are_new = v.are_new; distinct = v.distinct }) c k in
      ground (arith, free, q, exit_found_null u id)
]
