-- ===== src/Sched/Promotion.antt =====
-- What one clock interrupt does to all the ready queues of the priority scheduler
-- (kern/cpu/sched.c, clock_interrupt_handler).
pub mod Sweep
pub mod Valid
use native.Mathlib.Decide.{ℕ_discrete}
use fos_operational_system_f.Common.{
  ℕ, zero, suc, none, some, subst, ◌-◌, ◌+◌, ◌≤◌, ◌<◌, ◌≡◌, refl, sym, ap, ◌∙◌, ◌≢◌, Bool, true,
  false, ◌&&◌, List, [], ◌∷◌, ◌++◌, arith, ◌==◌, ltb, leb, if◌then◌else◌, contains, Distinct, kept,
  lifted, kept_ext, lifted_ext,
}
use fos_operational_system_f.Common.Outcome.{Outcome, ok, leaves, panic, fault, ◌>>=◌}
use fos_operational_system_f.Sched.State.{Sched, Env, Run, prirr}
use fos_operational_system_f.Sched.Clock.{
  tick_env, tick_queue, tick_queues, charge_clock, clock_interrupt_handler, is_prirr,
}
use fos_operational_system_f.Sched.Select.{yield}
use Sweep.{ticked, starves, AllAt, Swept, tick_queue_lem}

-- Every ready queue holds processes of its own priority, each once, and the lock is free.
pub record ReadyValid (s : Sched) : Type 0 where
  pub free : s.qlock ≡ false
  pub levels : (i : ℕ) → i < s.num_of_ready_queues → AllAt i s (s.env_ready_queues i)
  pub distinct : (i : ℕ) → i < s.num_of_ready_queues → Distinct (s.env_ready_queues i)

-- The processes that stay in the queue `i`.
abbrev pub stay : Sched → ℕ → List ℕ
stay s zero = s.env_ready_queues 0
stay s (suc i) = kept (starves s) (s.env_ready_queues (suc i))

-- The queue `i` with those that come up from below.
abbrev pub promoted : Sched → ℕ → List ℕ
promoted s i = lifted (starves s) (s.env_ready_queues (suc i)) (stay s i)

abbrev pub is_queued : Sched → ℕ → ℕ → Bool
is_queued s i x = leb (s.envs x).priority i && contains x (s.env_ready_queues (s.envs x).priority)

-- The queues up to `i` have been walked, from the state `o` on.
record Upto (i : ℕ) (o s : Sched) : Type 0 where
  frame : s ≡ record o { envs = s.envs; env_ready_queues = s.env_ready_queues }
  above : (j : ℕ) → i < j → s.env_ready_queues j ≡ o.env_ready_queues j
  here : s.env_ready_queues i ≡ stay o i
  under : (j : ℕ) → j < i → s.env_ready_queues j ≡ promoted o j
  envs :
      (x : ℕ)
      → s.envs x ≡ (if is_queued o i x then ticked o.starvation_threshold (o.envs x) else o.envs x)

-- Processes of a level that has not been walked are as they were.
Upto-next :
    (i : ℕ) (o s : Sched)
    → ReadyValid o
    → Upto i o s
    → suc i < o.num_of_ready_queues
    → (x : ℕ) → contains x (o.env_ready_queues (suc i)) ≡ true
    → s.envs x ≡ o.envs x
Upto-next i o s v u room x m = ground (arith, u.envs x, v.levels (suc i) room x m)

Upto-after :
    (i : ℕ) (o s t : Sched)
    → ReadyValid o
    → Upto i o s
    → suc i < o.num_of_ready_queues
    → s.env_ready_queues (suc i) ≡ o.env_ready_queues (suc i)
    → ((x : ℕ) → contains x (o.env_ready_queues (suc i)) ≡ true → s.envs x ≡ o.envs x)
    → Swept [] (s.env_ready_queues (suc i)) i s t
    → Upto (suc i) o t
Upto-after i o s t v u room q same sw = record {
  frame = ground (arith, sw.frame, u.frame);
  above = λ j h. sw.other j (omega arith) (omega arith) ∙ u.above j (omega arith);
  here =
      sw.own
      ∙ ap (kept (starves s)) q
      ∙ kept_ext (starves s) (starves o) (o.env_ready_queues (suc i)) agree;
  under = λ j h. elim (ℕ_discrete j i) [
    | yes e ↦ rw e (
        sw.below
        ∙ ap (λ (l : List ℕ). lifted (starves s) l (s.env_ready_queues i)) q
        ∙ ap (lifted (starves s) (o.env_ready_queues (suc i))) u.here
        ∙ lifted_ext (starves s) (starves o) (o.env_ready_queues (suc i)) (stay o i) agree)
    | no n ↦ sw.other j n (omega arith) ∙ u.under j (omega arith)
  ];
  envs = λ x. ground (arith, sw.envs x, u.envs x, same x, v.levels (suc i) room x, q, u.frame);
}
  where
    agree : (x : ℕ) → contains x (o.env_ready_queues (suc i)) ≡ true → starves s x ≡ starves o x
    agree x m = ground (arith, same x m, u.frame)

Upto-step :
    (i : ℕ) (o s : Sched)
    → ReadyValid o
    → Upto i o s
    → suc i < o.num_of_ready_queues
    → (t : Sched) × (tick_queue (s.env_ready_queues (suc i)) s ≡ ok t) × Upto (suc i) o t
Upto-step i o s v u room =
    let q : s.env_ready_queues (suc i) ≡ o.env_ready_queues (suc i) =
      u.above (suc i) (omega arith) in
    let same = Upto-next i o s v u room in
    let (t, sw) =
      tick_queue_lem [] (s.env_ready_queues (suc i)) i s (ground (arith, u.frame, v.free))
        (omega (arith, ap (λ (k : Sched). k.num_of_ready_queues) u.frame))
        (λ x m.
          ap (λ (e : Env). e.priority) (same x (rw q at m)) ∙ v.levels (suc i) room x (rw q at m))
        (rw q (v.distinct (suc i) room)) refl in
    (t, sw.runs, Upto-after i o s t v u room q same sw)

tick_queues_from :
    (n i : ℕ) (o s : Sched)
    → ReadyValid o
    → Upto i o s
    → suc i + n ≡ o.num_of_ready_queues
    → (t : Sched) × (tick_queues n (suc i) s ≡ ok t) × Upto (i + n) o t
unfolding tick_queues
tick_queues_from zero i o s v u h = (s, refl, subst (λ k. Upto k o s) (omega arith) u)
tick_queues_from (suc n) i o s v u h =
    let (t, r, w) = Upto-step i o s v u (omega arith) in
    let (z, r', w') = tick_queues_from n (suc i) o t v w (omega arith) in
    (
      z,
      rw (r, ◌>>=◌) (subst (λ k. tick_queues n k t ≡ ok z) (omega arith) r'),
      subst (λ k. Upto k o z) (omega arith) w',
    )

-- On level 0 the interrupt changes nothing.
tick_queue_zero : (es : List ℕ) (s : Sched) → AllAt 0 s es → tick_queue es s ≡ ok s
unfolding tick_queue tick_env contains
tick_queue_zero [] s at = refl
tick_queue_zero (e ∷ es) s at =
    ground (arith, at e, tick_queue_zero es s (λ x m. at x (ground arith)))

Upto-zero : (o : Sched) → ReadyValid o → 0 < o.num_of_ready_queues → Upto 0 o o
unfolding ticked
Upto-zero o v room = record {
  frame = refl;
  above = λ j h. refl;
  here = refl;
  under = λ j h. absurd (omega arith);
  envs = λ x. ground arith;
}

-- What the walk over the ready queues does.
pub tick_queues_lem :
    (s : Sched)
    → ReadyValid s
    → 0 < s.num_of_ready_queues
    → (t : Sched) × (tick_queues s.num_of_ready_queues 0 s ≡ ok t)
      × (t ≡ record s { envs = t.envs; env_ready_queues = t.env_ready_queues })
      × ((j : ℕ) → suc j < s.num_of_ready_queues → t.env_ready_queues j ≡ promoted s j)
      × ((j : ℕ) → suc j ≡ s.num_of_ready_queues → t.env_ready_queues j ≡ stay s j)
      × ((x : ℕ)
          → t.envs x ≡ (
              if is_queued s (s.num_of_ready_queues - 1) x
              then ticked s.starvation_threshold (s.envs x)
              else s.envs x))
unfolding tick_queues
tick_queues_lem s v room =
    let n = s.num_of_ready_queues - 1 in
    let e : s.num_of_ready_queues ≡ suc n = omega arith in
    let (t, r, w) = tick_queues_from n 0 s s v (Upto-zero s v room) (omega arith) in
    let u : Upto n s t = subst (λ k. Upto k s t) (omega arith) w in
    (
      t,
      subst (λ k. tick_queues k 0 s ≡ ok t) (sym e)
          (rw (tick_queue_zero (s.env_ready_queues 0) s (v.levels 0 room), ◌>>=◌)
            (subst (λ k. tick_queues n k s ≡ ok t) (omega arith) r)),
      u.frame,
      λ j h. u.under j (omega arith),
      λ j h. subst (λ k. t.env_ready_queues k ≡ stay s k) (omega arith) u.here,
      λ x. u.envs x,
    )

-- What the interrupt does once the queues have been walked.
abbrev pub after_queues : Sched → Run
after_queues t =
    let u : Sched = record t { ticks = t.ticks + 1 } in
    elim u.proc [ none ↦ ok u | some e ↦ charge_clock u e >>= yield ]

-- A clock interrupt under the priority scheduler, with well-formed ready queues and at least one
-- level: it walks the ready queues, to a state `t`, and then counts the tick and, if a process
-- runs, charges it for the tick and yields. In `t` a process that has waited for more than the
-- threshold has moved up one level, to the end of that queue, and counts afresh; any other process
-- on a level below the top counts one more tick; the rest is as it was. So each queue holds, oldest
-- first, those of its processes that stay and then those that have come up.
pub clock_interrupt_lem :
    (s : Sched)
    → s.scheduler_method ≡ prirr
    → ReadyValid s
    → 0 < s.num_of_ready_queues
    → (t : Sched) × (clock_interrupt_handler s ≡ after_queues t)
      × (t ≡ record s { envs = t.envs; env_ready_queues = t.env_ready_queues })
      × ((j : ℕ) → suc j < s.num_of_ready_queues → t.env_ready_queues j ≡ promoted s j)
      × ((j : ℕ) → suc j ≡ s.num_of_ready_queues → t.env_ready_queues j ≡ stay s j)
      × ((x : ℕ)
          → t.envs x ≡ (
              if is_queued s (s.num_of_ready_queues - 1) x
              then ticked s.starvation_threshold (s.envs x)
              else s.envs x))
unfolding clock_interrupt_handler
clock_interrupt_lem s p v room =
    let (t, r, f, below, top, envs) = tick_queues_lem s v room in
    let on : is_prirr s ≡ true = ap (λ x. elim x [ prirr ↦ true | _ ↦ false ]) p in
    (
      t,
      ap (λ b. (if b then tick_queues s.num_of_ready_queues 0 s else ok s) >>= after_queues) on
          ∙ ap (λ o. o >>= after_queues) r,
      f,
      below,
      top,
      envs,
    )
