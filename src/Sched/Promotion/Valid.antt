-- ===== src/Sched/Promotion/Valid.antt =====
-- The ready queues are well formed again after a clock interrupt, and nobody falls out of them.
use fos_operational_system_f.Common.{
  ℕ, zero, suc, ◌-◌, ◌<◌, ◌≡◌, refl, sym, ap, ◌∙◌, subst, true, false, inl, inr, arith, contains,
  Bool-cases, Distinct, contains-kept, contains-lifted, kept-Distinct, lifted-Distinct,
  if◌then◌else◌,
}
use native.Mathlib.Decide.{dec_lt}
use fos_operational_system_f.Common.Outcome.{ok}
use fos_operational_system_f.Sched.State.{Sched}
use fos_operational_system_f.Sched.Clock.{tick_queues}
use fos_operational_system_f.Sched.Promotion.Sweep.{ticked, starves, AllAt}
use fos_operational_system_f.Sched.Promotion.{
  ReadyValid, stay, promoted, is_queued, tick_queues_lem,
}

contains-stay :
    (s : Sched) (x j : ℕ) → contains x (stay s j) ≡ true → contains x (s.env_ready_queues j) ≡ true
contains-stay s x zero h = h
contains-stay s x (suc j) h =
    ground (arith, contains-kept x (starves s) (s.env_ready_queues (suc j)))

stay_same :
    (s : Sched) (x j : ℕ)
    → contains x (stay s j) ≡ true
    → (s.envs x).priority ≡ j
    → (ticked s.starvation_threshold (s.envs x)).priority ≡ j
unfolding ticked
stay_same s x zero h e = ground arith
stay_same s x (suc j) h e = ground (arith, contains-kept x (starves s) (s.env_ready_queues (suc j)))

stay-Distinct : (s : Sched) (j : ℕ) → Distinct (s.env_ready_queues j) → Distinct (stay s j)
stay-Distinct s zero d = d
stay-Distinct s (suc j) d = kept-Distinct (starves s) (s.env_ready_queues (suc j)) d

module _ (s : Sched) (v : ReadyValid s) where
  queued :
      (j : ℕ)
      → j < s.num_of_ready_queues
      → (x : ℕ) → contains x (s.env_ready_queues j) ≡ true
      → is_queued s (s.num_of_ready_queues - 1) x ≡ true
  queued j h x m = ground (arith, v.levels j h x m)

  stay_AllAt :
      (j : ℕ)
      → j < s.num_of_ready_queues
      → (x : ℕ) → contains x (stay s j) ≡ true
      → (ticked s.starvation_threshold (s.envs x)).priority ≡ j
  stay_AllAt j h x m = stay_same s x j m (v.levels j h x (contains-stay s x j m))

  came_up :
      (j x : ℕ)
      → contains x (promoted s j) ≡ true
      → contains x (stay s j) ≡ false
      → (starves s x ≡ true) × (contains x (s.env_ready_queues (suc j)) ≡ true)
  came_up j x m k =
      ground (arith, contains-lifted x (starves s) (s.env_ready_queues (suc j)) (stay s j))

  promoted_AllAt :
      (j : ℕ)
      → suc j < s.num_of_ready_queues
      → (x : ℕ) → contains x (promoted s j) ≡ true
      → (is_queued s (s.num_of_ready_queues - 1) x ≡ true)
        × ((ticked s.starvation_threshold (s.envs x)).priority ≡ j)
  unfolding ticked
  promoted_AllAt j h x m = elim (Bool-cases (contains x (stay s j))) [
    | inl k ↦ (queued j (omega arith) x (contains-stay s x j k), stay_AllAt j (omega arith) x k)
    | inr k ↦
        let (a, b) = came_up j x m k in
        (queued (suc j) h x b, ground (arith, v.levels (suc j) h x b))
  ]

  promoted-Distinct : (j : ℕ) → suc j < s.num_of_ready_queues → Distinct (promoted s j)
  promoted-Distinct j h =
      lifted-Distinct (starves s) (s.env_ready_queues (suc j)) (stay s j) (v.distinct (suc j) h)
        (stay-Distinct s j (v.distinct j (omega arith)))
        λ x m. elim (Bool-cases (contains x (stay s j))) [
          | inl k ↦ absurd (
              omega
                (arith, v.levels (suc j) h x m, v.levels j (omega arith) x (contains-stay s x j k)))
          | inr k ↦ k
        ]

-- The state `t` after the interrupt at `s`.
pub record Ticked (s t : Sched) : Type 0 where
  pub frame : t ≡ record s { envs = t.envs; env_ready_queues = t.env_ready_queues }
  pub inner : (j : ℕ) → suc j < s.num_of_ready_queues → t.env_ready_queues j ≡ promoted s j
  pub lowest : (j : ℕ) → suc j ≡ s.num_of_ready_queues → t.env_ready_queues j ≡ stay s j
  pub envs :
      (x : ℕ)
      → t.envs x ≡ (
          if is_queued s (s.num_of_ready_queues - 1) x
          then ticked s.starvation_threshold (s.envs x)
          else s.envs x)

module _ (s t : Sched) (v : ReadyValid s) (w : Ticked s t) where
  same_count : t.num_of_ready_queues ≡ s.num_of_ready_queues
  same_count = ap (λ (k : Sched). k.num_of_ready_queues) w.frame

  level_AllAt : (j : ℕ) → j < s.num_of_ready_queues → AllAt j t (t.env_ready_queues j)
  level_AllAt j h x m = elim (dec_lt (suc j) s.num_of_ready_queues) [
    | yes a ↦
        let (q, p) = promoted_AllAt s v j a x (rw (← w.inner j a) m) in
        ground (arith, w.envs x, q, p)
    | no b ↦
        let e = w.lowest j (omega arith) in
        let k : contains x (stay s j) ≡ true = rw (← e) m in
        let q = queued s v j h x (contains-stay s x j k) in
        let p = stay_AllAt s v j h x k in ground (arith, w.envs x, q, p)
  ]

  level_Distinct : (j : ℕ) → j < s.num_of_ready_queues → Distinct (t.env_ready_queues j)
  level_Distinct j h = elim (dec_lt (suc j) s.num_of_ready_queues) [
    | yes a ↦ subst Distinct (sym (w.inner j a)) (promoted-Distinct s v j a)
    | no b ↦ subst Distinct (sym (w.lowest j (omega arith))) (stay-Distinct s j (v.distinct j h))
  ]

  pub Ticked-ReadyValid : ReadyValid t
  Ticked-ReadyValid = record {
    free = ap (λ (k : Sched). k.qlock) w.frame ∙ v.free;
    levels = λ i h. level_AllAt i (omega (arith, same_count));
    distinct = λ i h. level_Distinct i (omega (arith, same_count));
  }

  -- What stays on a level, and what comes up to it, is in its queue.
  in_stay :
      (j : ℕ)
      → j < s.num_of_ready_queues
      → (x : ℕ) → contains x (stay s j) ≡ true
      → contains x (t.env_ready_queues j) ≡ true
  in_stay j h x m = elim (dec_lt (suc j) s.num_of_ready_queues) [
    | yes a ↦
        ground (
          arith,
          w.inner j a,
          contains-lifted x (starves s) (s.env_ready_queues (suc j)) (stay s j),
        )
    | no b ↦ ground (arith, w.lowest j (omega arith))
  ]

  moved_on :
      (p x : ℕ)
      → p < s.num_of_ready_queues
      → (s.envs x).priority ≡ p
      → contains x (s.env_ready_queues p) ≡ true
      → contains x (t.env_ready_queues (ticked s.starvation_threshold (s.envs x)).priority) ≡ true
  unfolding ticked
  moved_on zero x h e m = ground (arith, in_stay 0 h x m)
  moved_on (suc p) x h e m = elim (Bool-cases (starves s x)) [
    | inl b ↦ ground (
      arith,
      b,
      w.inner p h,
      contains-lifted x (starves s) (s.env_ready_queues (suc p)) (stay s p),
    )
    | inr b ↦
        ground
          (arith, b, in_stay (suc p) h x, contains-kept x (starves s) (s.env_ready_queues (suc p)))
  ]

  pub still_queued :
      (x : ℕ)
      → (s.envs x).priority < s.num_of_ready_queues
      → contains x (s.env_ready_queues (s.envs x).priority) ≡ true
      → (t.envs x ≡ ticked s.starvation_threshold (s.envs x))
        × (contains x (t.env_ready_queues (t.envs x).priority) ≡ true)
  still_queued x h m =
      let e : t.envs x ≡ ticked s.starvation_threshold (s.envs x) =
        ground (arith, w.envs x, queued s v (s.envs x).priority h x m) in
      (e, rw e (moved_on (s.envs x).priority x h refl m))

pub tick-Ticked :
    (s : Sched)
    → ReadyValid s
    → 0 < s.num_of_ready_queues
    → (t : Sched) × (tick_queues s.num_of_ready_queues 0 s ≡ ok t) × Ticked s t
tick-Ticked s v room =
    let (t, r, f, i, l, e) = tick_queues_lem s v room in
    (t, r, record { frame = f; inner = i; lowest = l; envs = e })
