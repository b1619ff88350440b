-- ===== src/Sched/Starvation.antt =====
-- No process starves under the priority scheduler (kern/cpu/sched.c, clock_interrupt_handler):
-- one that is not picked climbs a level every `threshold + 2` clock interrupts.
use fos_operational_system_f.Common.{
  ℕ, zero, suc, ◌+◌, ◌*◌, ◌-◌, ◌^◌, ◌≤◌, ◌<◌, ◌≡◌, refl, subst, ◌∙◌, arith, ap, contains, Bool,
  true, false, Option, none, some, ◌≢◌, ◌⊎◌, inl, inr, sym,
}
use fos_operational_system_f.Common.Outcome.{Exit, ok, leaves, to_scheduler, ◌>>=◌}
use fos_operational_system_f.Common.Ends.{
  Ends, Ends-ok, Ends-leaves, Ends-panic, Ends-if, Ends-bind, Ends-assert, Ends-weaken,
}
use fos_operational_system_f.Space.Aging.{update_ws_time_stamps}
use fos_operational_system_f.Space.Steady.{age_elements-Stays}
use fos_operational_system_f.Sched.State.{Sched, Run, Env, prirr, ready, acquire, set_status}
use fos_operational_system_f.Sched.Select.{sched, yield}
use fos_operational_system_f.Sched.Clock.{charge_clock, clock_interrupt_handler}
use fos_operational_system_f.Sched.Promotion.{ReadyValid, after_queues, clock_interrupt_lem}
use fos_operational_system_f.Sched.Promotion.Valid.{still_queued}
use fos_operational_system_f.Sched.Promotion.Sweep.{ticked}

pub ticks_on : ℕ → ℕ → Env → Env
ticks_on thresh zero v = v
ticks_on thresh (suc n) v = ticks_on thresh n (ticked thresh v)

ticks_on_add :
    (thresh m n : ℕ) (v : Env) → ticks_on thresh (m + n) v ≡ ticks_on thresh n (ticks_on thresh m v)
unfolding ticks_on
ticks_on_add thresh zero n v =
    subst (λ k. ticks_on thresh k v ≡ ticks_on thresh n v) {x = n} {y = zero + n} (omega arith) refl
ticks_on_add thresh (suc m) n v =
    subst (λ k. ticks_on thresh k v ≡ ticks_on thresh n (ticks_on thresh (suc m) v))
      {x = suc (m + n)} {y = suc m + n} (omega arith) (ticks_on_add thresh m n (ticked thresh v))

-- Waiting: after `n` ticks that stay within the threshold the count has grown by `n`.
waits :
    (thresh n : ℕ) (v : Env)
    → thresh + 1 < 2 ^ 32
    → 0 < v.priority
    → v.n_ticks + n ≤ thresh + 1
    → ((ticks_on thresh n v).priority ≡ v.priority)
      × ((ticks_on thresh n v).n_ticks ≡ v.n_ticks + n)
unfolding ticks_on ticked
waits thresh zero v w p h = (refl, omega arith)
waits thresh (suc n) v w p h =
    let t = ticked thresh v in
    let (a, b) = waits thresh n t w (ground arith) (ground arith) in
    (a ∙ ground arith, b ∙ ground arith)

-- Past the threshold the next tick moves it up.
last :
    (thresh : ℕ) (t : Env)
    → 0 < t.priority
    → thresh < t.n_ticks
    → ((ticks_on thresh 1 t).priority ≡ t.priority - 1) × ((ticks_on thresh 1 t).n_ticks ≡ 0)
unfolding ticks_on ticked
last thresh t p h = ground arith

-- A full round: one level up, counting from 0 again.
climbs :
    (thresh : ℕ) (v : Env)
    → thresh + 1 < 2 ^ 32
    → 0 < v.priority
    → v.n_ticks ≡ 0
    → ((ticks_on thresh (thresh + 2) v).priority ≡ v.priority - 1)
      × ((ticks_on thresh (thresh + 2) v).n_ticks ≡ 0)
climbs thresh v w p z =
    let (a, b) = waits thresh (thresh + 1) v w p (omega arith) in
    let e = ticks_on_add thresh (thresh + 1) 1 v in
    subst
      (λ k. ((ticks_on thresh k v).priority ≡ v.priority - 1) × ((ticks_on thresh k v).n_ticks ≡ 0))
      {x = thresh + 1 + 1} {y = thresh + 2} (omega arith)
      (rw e (
        let (c, d) =
          last thresh (ticks_on thresh (thresh + 1) v) (omega (arith, a)) (omega (arith, b)) in
        (c ∙ omega (arith, a), d)))

pub climbs_times :
    (thresh k : ℕ) (v : Env)
    → thresh + 1 < 2 ^ 32
    → k ≤ v.priority
    → v.n_ticks ≡ 0
    → ((ticks_on thresh (k * (thresh + 2)) v).priority ≡ v.priority - k)
      × ((ticks_on thresh (k * (thresh + 2)) v).n_ticks ≡ 0)
unfolding ticks_on
climbs_times thresh zero v w p z =
    subst
      (λ k. ((ticks_on thresh k v).priority ≡ v.priority - 0) × ((ticks_on thresh k v).n_ticks ≡ 0))
      {x = 0} {y = zero * (thresh + 2)} (omega arith) (omega arith, z)
climbs_times thresh (suc k) v w p z =
    let (a, b) = climbs thresh v w (omega arith) z in
    let (c, d) = climbs_times thresh k (ticks_on thresh (thresh + 2) v) w (omega (arith, a)) b in
    let e = ticks_on_add thresh (thresh + 2) (k * (thresh + 2)) v in
    subst
      (λ j.
        ((ticks_on thresh j v).priority ≡ v.priority - suc k) × ((ticks_on thresh j v).n_ticks ≡ 0))
      {x = (thresh + 2) + k * (thresh + 2)} {y = suc k * (thresh + 2)} (grind arith)
      (rw e (c ∙ omega (arith, a), d))

ticked-le : (thresh : ℕ) (v : Env) → (ticked thresh v).priority ≤ v.priority
unfolding ticked
ticked-le thresh v = ground arith

-- The process `x` waits in the ready queue of its level under the priority scheduler.
pub record Waiting (x : ℕ) (s : Sched) : Type 0 where
  pub valid : ReadyValid s
  pub method : s.scheduler_method ≡ prirr
  pub level : (s.envs x).priority < s.num_of_ready_queues
  pub queued : contains x (s.env_ready_queues (s.envs x).priority) ≡ true
  pub not_running : s.proc ≢ some x

-- Between `s` and `t` nothing has happened to the process `x`.
pub record Spared (x : ℕ) (s t : Sched) : Type 0 where
  pub env : t.envs x ≡ s.envs x
  pub thresh : t.starvation_threshold ≡ s.starvation_threshold

-- The call ends in the state `t`: it returns, or it leaves for the scheduler.
abbrev pub EndsIn : Run → Sched → Type 0
EndsIn o t = (o ≡ ok t) ⊎ ((r : Exit) × (o ≡ leaves r t))

-- A clock interrupt, and then anything that the scheduler and the processes do up to the next one,
-- except that the process `x` is not picked and the threshold is not set.
pub record Round (x : ℕ) (s t : Sched) : Type 0 where
  pub interrupted : Sched
  pub handled : EndsIn (clock_interrupt_handler s) interrupted
  pub spared : Spared x interrupted t
  pub waiting : Waiting x t

pub data Rounds (x : ℕ) : ℕ → Sched → Sched → Type 0 where
  none_yet : (s : Sched) → Rounds x 0 s s
  one_more : (n : ℕ) (s t u : Sched) → Round x s t → Rounds x n t u → Rounds x (suc n) s u

charge_clock-Spared :
    (x e : ℕ) (s : Sched)
    → e ≢ x
    → Ends (Spared x s) (λ t. Spared x s t × (t.proc ≡ s.proc)) (charge_clock s e)
unfolding charge_clock update_ws_time_stamps
charge_clock-Spared x e s ne =
    Ends-if s.lru_time _ _
      (λ b.
        Ends-bind (λ m. Unit {0}) (update_ws_time_stamps (s.envs e).space) _
          (age_elements-Stays (Spared x s) (s.envs e).space.page_ws_list (s.envs e).space)
          (λ m u. Ends-ok _ (record { env = ground (arith, ne); thresh = refl }, refl)))
      (λ b. Ends-ok _ (record { env = ground (arith, ne); thresh = refl }, refl))

-- yield leaves any process but the running one alone.
sched-Spared : (x : ℕ) (s t : Sched) → Spared x s t → Ends (Spared x s) (Spared x s) (sched t)
unfolding sched
sched-Spared x s t h = go t.proc refl
  where
    go : (o : Option ℕ) → t.proc ≡ o → Ends (Spared x s) (Spared x s) (sched t)
    go none z = rw (sched, z) Ends-panic
    go (some e) z = rw (sched, z) (Ends-assert _ _ (Ends-leaves to_scheduler _ h))

yield-Spared : (x : ℕ) (s : Sched) → s.proc ≢ some x → Ends (Spared x s) (Spared x s) (yield s)
unfolding yield acquire
yield-Spared x s idle = go s.proc s.qlock refl refl
  where
    go :
        (o : Option ℕ) (b : Bool)
        → s.proc ≡ o
        → s.qlock ≡ b
        → Ends (Spared x s) (Spared x s) (yield s)
    go o true z q = rw (yield, q) Ends-panic
    go none false z q = rw (yield, q) (rw z Ends-panic)
    go (some e) false z q =
        let ne : e ≢ x = λ k. idle (z ∙ ap some k) in
        let old : Sched = record s { proc = some e; qlock = false } in
        let new : Sched = set_status (record s { qlock = true; ncli = s.ncli + 1 }) e ready in
        let same : new.envs x ≡ s.envs x = ground (arith, ne) in
        rw (yield, q) (rw z (sched-Spared x old new (record { env = same; thresh = refl })))

Spared-trans : (x : ℕ) (s t u : Sched) → Spared x s t → Spared x t u → Spared x s u
Spared-trans x s t u h k = record { env = k.env ∙ h.env; thresh = k.thresh ∙ h.thresh }

after_queues-Spared :
    (x : ℕ) (s : Sched) → s.proc ≢ some x → Ends (Spared x s) (Spared x s) (after_queues s)
after_queues-Spared x s idle = go s.proc refl
  where
    go : (o : Option ℕ) → s.proc ≡ o → Ends (Spared x s) (Spared x s) (after_queues s)
    go none z = rw z (Ends-ok _ (record { env = refl; thresh = refl }))
    go (some e) z =
        let ne : e ≢ x = λ k. idle (z ∙ ap some k) in
        let u : Sched = record s { ticks = s.ticks + 1 } in
        subst
          (λ o.
            Ends (Spared x s) (Spared x s)
              (elim o [ none ↦ ok u | some e ↦ charge_clock u e >>= yield ]))
          (sym z)
          (Ends-bind (λ t. Spared x s t × (t.proc ≡ s.proc)) (charge_clock u e) yield
            (Ends-weaken _ (λ t h. record { env = h.env; thresh = h.thresh })
              (λ t h. (record { env = h.0.env; thresh = h.0.thresh }, h.1))
              (charge_clock-Spared x e u ne))
            (λ t h.
              Ends-weaken _ (λ v k. Spared-trans x s t v h.0 k) (λ v k. Spared-trans x s t v h.0 k)
                (yield-Spared x t (λ k. idle (sym h.1 ∙ k)))))

-- What a round does to the process.
Round-ticked :
    (x : ℕ) (s t : Sched)
    → Waiting x s
    → Round x s t
    → (t.envs x ≡ ticked s.starvation_threshold (s.envs x))
      × (t.starvation_threshold ≡ s.starvation_threshold)
Round-ticked x s t w r =
    let (k, e, f, i, l, v) = clock_interrupt_lem s w.method w.valid (omega (arith, w.level)) in
    let (env, _) =
      still_queued s k w.valid (record { frame = f; inner = i; lowest = l; envs = v }) x w.level
        w.queued in
    let proc : k.proc ≡ s.proc = ap (λ (z : Sched). z.proc) f in
    let thresh : k.starvation_threshold ≡ s.starvation_threshold =
      ap (λ (z : Sched). z.starvation_threshold) f in
    let h =
      subst (λ o. Ends (Spared x k) (Spared x k) o) (sym e)
        (after_queues-Spared x k (λ z. w.not_running (sym proc ∙ z))) in
    let kept : Spared x k r.interrupted = elim r.handled [
      | inl q ↦ (subst (λ o. Ends (Spared x k) (Spared x k) o) q h).at
      | inr (b, q) ↦ (subst (λ o. Ends (Spared x k) (Spared x k) o) q h).at
    ] in
    (r.spared.env ∙ kept.env ∙ env, r.spared.thresh ∙ kept.thresh ∙ thresh)

Rounds-ticked :
    (x n : ℕ) (s t : Sched)
    → Waiting x s
    → Rounds x n s t
    → Waiting x t × (t.envs x ≡ ticks_on s.starvation_threshold n (s.envs x))
unfolding ticks_on
Rounds-ticked x n s t w (none_yet u) = (w, refl)
Rounds-ticked x n s t w (one_more m u k v r rs) =
    let (env, thresh) = Round-ticked x s k w r in
    let (last, e) = Rounds-ticked x m k t r.waiting rs in
    (
      last,
      e ∙ ap (λ c. ticks_on c m (k.envs x)) thresh ∙ ap (ticks_on s.starvation_threshold m) env,
    )

-- No process starves under the priority scheduler: a process that waits on level p with a fresh
-- count is on level p - j after j * (threshold + 2) clock interrupts, for every j up to p, and
-- waits in the queue of that level. Between the interrupts the scheduler and the other processes
-- may do anything that leaves it waiting in well-formed queues: it is not picked, and the
-- threshold is not set.
pub starvation_bound :
    (s t : Sched) (x j : ℕ)
    → Waiting x s
    → s.starvation_threshold + 1 < 2 ^ 32
    → (s.envs x).n_ticks ≡ 0
    → j ≤ (s.envs x).priority
    → Rounds x (j * (s.starvation_threshold + 2)) s t
    → ((t.envs x).priority ≡ (s.envs x).priority - j)
      × (contains x (t.env_ready_queues ((s.envs x).priority - j)) ≡ true)
starvation_bound s t x j w room z le rs =
    let (v, e) = Rounds-ticked x (j * (s.starvation_threshold + 2)) s t w rs in
    let (p, _) = climbs_times s.starvation_threshold j (s.envs x) room le z in
    let q : (t.envs x).priority ≡ (s.envs x).priority - j = ap (λ (c : Env). c.priority) e ∙ p in
    (q, subst (λ i. contains x (t.env_ready_queues i) ≡ true) q v.queued)
