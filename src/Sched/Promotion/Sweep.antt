-- ===== src/Sched/Promotion/Sweep.antt =====
-- The loop over one ready queue in the clock interrupt of the priority scheduler
-- (kern/cpu/sched.c, clock_interrupt_handler).
use fos_operational_system_f.Common.{
  ℕ, suc, ◌+◌, ◌-◌, ◌%◌, ◌^◌, ◌<◌, ◌≡◌, refl, sym, subst, ap, ◌∙◌, ◌≢◌, Bool, true, false, List, [],
  ◌∷◌, ◌++◌, arith, ◌==◌, ltb, if◌then◌else◌, contains, erase, kept, lifted, kept_ext, lifted_ext,
  Distinct-middle, contains-middle, erase-append_first, append_assoc, Distinct, update, Bool-cases,
  inl, inr,
}
use native.Mathlib.Decide.{ℕ_discrete}
use fos_operational_system_f.Common.Outcome.{ok, ◌>>=◌}
use fos_operational_system_f.Sched.State.{
  Sched, Env, ready, set_env, set_priority, set_ready, set_ticks,
}
use fos_operational_system_f.Sched.Clock.{move_ready, tick_env, tick_queue}

-- The process after the interrupt: one that has waited for more than `thresh` ticks moves up a
-- level and starts counting afresh, any other counts this tick; on level 0 nothing changes.
unfoldable pub ticked : ℕ → Env → Env
ticked thresh v =
    if v.priority == 0
    then v
    else if ltb thresh v.n_ticks
    then record v { priority = v.priority - 1; n_ticks = 0; env_status = ready }
    else record v { n_ticks = (v.n_ticks + 1) % 2 ^ 32 }

abbrev pub starves : Sched → ℕ → Bool
starves s e = ltb s.starvation_threshold (s.envs e).n_ticks

-- The step of the loop at a process `e` of the queue `suc i`.
pub record Step (s : Sched) (e i : ℕ) (t : Sched) : Type 0 where
  pub runs : tick_env s e ≡ ok t
  pub env_self : t.envs e ≡ ticked s.starvation_threshold (s.envs e)
  pub env_other : (x : ℕ) → x ≢ e → t.envs x ≡ s.envs x
  pub own :
      t.env_ready_queues (suc i)
      ≡ (if starves s e then erase e (s.env_ready_queues (suc i)) else s.env_ready_queues (suc i))
  pub below :
      t.env_ready_queues i
      ≡ (if starves s e then e ∷ s.env_ready_queues i else s.env_ready_queues i)
  pub other : (j : ℕ) → j ≢ i → j ≢ suc i → t.env_ready_queues j ≡ s.env_ready_queues j
  pub frame : t ≡ record s { envs = t.envs; env_ready_queues = t.env_ready_queues }

-- The states in the middle of move_ready, from the first half to the second.
abbrev taken : Sched → ℕ → ℕ → Sched
taken s e i = record s {
  env_ready_queues = update s.env_ready_queues (suc i) (erase e (s.env_ready_queues (suc i)));
  qlock = false;
  ncli = s.ncli + 1 - 1;
}

abbrev moved : Sched → ℕ → ℕ → Sched
moved s e i =
    let b = set_priority (taken s e i) e i in
    let d = set_env b e (record (b.envs e) { n_ticks = 0; env_status = ready }) in
    record (set_ready d i (e ∷ b.env_ready_queues i)) { qlock = false; ncli = b.ncli + 1 - 1 }

module _ (s : Sched) (e i : ℕ) (lock : s.qlock ≡ false) (pri : (s.envs e).priority ≡ suc i)
    (room : suc i < s.num_of_ready_queues)
    (on : contains e (s.env_ready_queues (suc i)) ≡ true) where
  move_ready_lem : move_ready s e i ≡ ok (moved s e i)
  unfolding move_ready
  move_ready_lem = ground (arith, lock, pri, on)

  up-env :
      (set_ticks (moved s e i) e 0).envs e
      ≡ record (s.envs e) { priority = i; n_ticks = 0; env_status = ready }
  up-env = ground arith

  up-other : (x : ℕ) → x ≢ e → (set_ticks (moved s e i) e 0).envs x ≡ s.envs x
  up-other x h = ground arith

  up-own :
      (set_ticks (moved s e i) e 0).env_ready_queues (suc i) ≡ erase e (s.env_ready_queues (suc i))
  up-own = ground arith

  up-below : (set_ticks (moved s e i) e 0).env_ready_queues i ≡ e ∷ s.env_ready_queues i
  up-below = ground arith

  up-rest :
      (j : ℕ)
      → j ≢ i
      → j ≢ suc i
      → (set_ticks (moved s e i) e 0).env_ready_queues j ≡ s.env_ready_queues j
  up-rest j h k = ground arith

  up-frame : set_ticks (moved s e i) e 0 ≡ record s {
    envs = (set_ticks (moved s e i) e 0).envs;
    env_ready_queues = (set_ticks (moved s e i) e 0).env_ready_queues;
  }
  up-frame = ground (arith, lock)

  tick_env-up : starves s e ≡ true → tick_env s e ≡ ok (set_ticks (moved s e i) e 0)
  unfolding tick_env
  tick_env-up st = ground (arith, pri, st, move_ready_lem)

  tick_env-stay :
      starves s e ≡ false → tick_env s e ≡ ok (set_ticks s e (((s.envs e).n_ticks + 1) % 2 ^ 32))
  unfolding tick_env
  tick_env-stay st = ground (arith, pri, st)

  up-Step : starves s e ≡ true → Step s e i (set_ticks (moved s e i) e 0)
  unfolding ticked
  up-Step st = record {
    runs = tick_env-up st;
    env_self = up-env ∙ ground (arith, pri, st);
    env_other = up-other;
    own = up-own ∙ ground (arith, st);
    below = up-below ∙ ground (arith, st);
    other = up-rest;
    frame = up-frame;
  }

  stay-Step : starves s e ≡ false → Step s e i (set_ticks s e (((s.envs e).n_ticks + 1) % 2 ^ 32))
  unfolding ticked
  stay-Step st = record {
    runs = tick_env-stay st;
    env_self = ground (arith, pri, st);
    env_other = λ x h. ground arith;
    own = ground (arith, st);
    below = ground (arith, st);
    other = λ j h k. refl;
    frame = refl;
  }

  tick_env_lem : (t : Sched) × Step s e i t
  tick_env_lem = elim (Bool-cases (starves s e)) [
    | inl st ↦ (set_ticks (moved s e i) e 0, up-Step st)
    | inr st ↦ (set_ticks s e (((s.envs e).n_ticks + 1) % 2 ^ 32), stay-Step st)
  ]

-- The loop over the rest `es` of the queue `suc i`, of which `ks` has been walked and kept.
pub record Swept (ks es : List ℕ) (i : ℕ) (s t : Sched) : Type 0 where
  pub runs : tick_queue es s ≡ ok t
  pub envs :
      (x : ℕ)
      → t.envs x ≡ (if contains x es then ticked s.starvation_threshold (s.envs x) else s.envs x)
  pub own : t.env_ready_queues (suc i) ≡ ks ++ kept (starves s) es
  pub below : t.env_ready_queues i ≡ lifted (starves s) es (s.env_ready_queues i)
  pub other : (j : ℕ) → j ≢ i → j ≢ suc i → t.env_ready_queues j ≡ s.env_ready_queues j
  pub frame : t ≡ record s { envs = t.envs; env_ready_queues = t.env_ready_queues }

abbrev pub AllAt : ℕ → Sched → List ℕ → Type 0
AllAt p s es = (x : ℕ) → contains x es ≡ true → (s.envs x).priority ≡ p

same_starves :
    (e i : ℕ) (es : List ℕ) (s t : Sched)
    → contains e es ≡ false
    → Step s e i t
    → (x : ℕ) → contains x es ≡ true
    → starves t x ≡ starves s x
same_starves e i es s t b st x m = elim (ℕ_discrete x e) [
  | yes q ↦ absurd (ground (arith, q))
  | no n ↦ ground (arith, st.env_other x n, st.frame)
]

tick_queue-Step :
    (ks : List ℕ) (e : ℕ) (es : List ℕ) (i : ℕ) (s t u : Sched)
    → s.env_ready_queues (suc i) ≡ ks ++ e ∷ es
    → contains e ks ≡ false
    → contains e es ≡ false
    → Step s e i t
    → Swept (if starves s e then ks else ks ++ e ∷ []) es i t u
    → Swept ks (e ∷ es) i s u
unfolding tick_queue contains kept lifted
tick_queue-Step ks e es i s t u q a b st sw = record {
  runs = rw (st.runs, ◌>>=◌) sw.runs;
  envs = λ x. ground (arith, st.env_self, st.env_other x, sw.envs x, st.frame);
  own = ground (
    arith,
    sw.own,
    kept_ext (starves t) (starves s) es (same_starves e i es s t b st),
    append_assoc ks (e ∷ []) (kept (starves s) es),
  );
  below = ground (
    arith,
    sw.below,
    st.below,
    lifted_ext (starves t) (starves s) es (t.env_ready_queues i) (same_starves e i es s t b st),
  );
  other = λ j h k. sw.other j h k ∙ st.other j h k;
  frame = ground (arith, st.frame, sw.frame);
}

next_at :
    (e i : ℕ) (es : List ℕ) (s t : Sched)
    → contains e es ≡ false
    → Step s e i t
    → AllAt (suc i) s (e ∷ es)
    → AllAt (suc i) t es
unfolding contains
next_at e i es s t b st at x m = elim (ℕ_discrete x e) [
  | yes q ↦ absurd (ground (arith, q))
  | no n ↦ ground (arith, st.env_other x n, at x)
]

next_Distinct :
    (ks : List ℕ) (e : ℕ) (es : List ℕ) (b : Bool)
    → Distinct (ks ++ e ∷ es)
    → Distinct ((if b then ks else ks ++ e ∷ []) ++ es)
next_Distinct ks e es true d = (Distinct-middle ks e es d).2
next_Distinct ks e es false d = subst Distinct (sym (append_assoc ks (e ∷ []) es)) d

next_queue :
    (ks : List ℕ) (e : ℕ) (es : List ℕ) (i : ℕ) (s t : Sched)
    → contains e ks ≡ false
    → s.env_ready_queues (suc i) ≡ ks ++ e ∷ es
    → Step s e i t
    → t.env_ready_queues (suc i) ≡ (if starves s e then ks else ks ++ e ∷ []) ++ es
next_queue ks e es i s t a q st =
    ground (arith, st.own, erase-append_first e ks es a, append_assoc ks (e ∷ []) es)

pub tick_queue_lem :
    (ks es : List ℕ) (i : ℕ) (s : Sched)
    → s.qlock ≡ false
    → suc i < s.num_of_ready_queues
    → AllAt (suc i) s es
    → Distinct (ks ++ es)
    → s.env_ready_queues (suc i) ≡ ks ++ es
    → (t : Sched) × Swept ks es i s t
unfolding tick_queue contains kept lifted
tick_queue_lem ks [] i s lock room at d q = (
  s,
  record {
    runs = refl;
    envs = λ x. refl;
    own = q;
    below = refl;
    other = λ j h k. refl;
    frame = refl;
  },
)
tick_queue_lem ks (e ∷ es) i s lock room at d q =
    let (a, b, c) = Distinct-middle ks e es d in
    let (t, st) =
      tick_env_lem s e i lock (at e (ground arith)) room (rw q (contains-middle ks e es)) in
    let ks' : List ℕ = if starves s e then ks else ks ++ e ∷ [] in
    let (u, sw) =
      tick_queue_lem ks' es i t (ground (arith, st.frame))
        (omega (arith, ap (λ (v : Sched). v.num_of_ready_queues) st.frame))
        (next_at e i es s t b st at) (next_Distinct ks e es (starves s e) d)
        (next_queue ks e es i s t a q st) in
    (u, tick_queue-Step ks e es i s t u q a b st sw)
