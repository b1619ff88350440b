-- ===== src/Conc/Conserved.antt =====
-- kern/conc/ksemaphore.c: processes that wait for a semaphore and signal it, in any order.
use fos_operational_system_f.Common.{
  ℕ, ◌+◌, ◌^◌, ◌<◌, ◌≡◌, ap, subst, ◌∙◌, inl, inr, true, false, [], arith,
}
use fos_operational_system_f.Common.Outcome.{ok, leaves, to_scheduler, same_result}
use fos_operational_system_f.Sched.State.{Sched}
use fos_operational_system_f.Conc.Semaphore.{
  Semaphore, is_positive, wait_ksemaphore, resume_ksemaphore, signal_ksemaphore,
}
use fos_operational_system_f.Conc.Asleep.{Runs}
use fos_operational_system_f.Conc.Woken.{HaveQueues}
use fos_operational_system_f.Conc.Counted.{
  Takes, Waits, Signals, wait_ksemaphore_lem, resume_ksemaphore_lem, signal_ksemaphore_lem,
}

-- The semaphore, how many waits have returned and how many signals.
pub record System : Type 0 where
  pub semaphore : Semaphore
  pub taken : ℕ
  pub given : ℕ

-- One step of the kernel: a call of a process up to its return or its switch to the scheduler, or
-- anything else that changes the scheduler and not the semaphore.
pub data Step (s : System) : System → Type 0 where
  takes :
      (p : ℕ) (m : Semaphore)
      → Runs p 0 false s.semaphore.chan
      → wait_ksemaphore s.semaphore ≡ ok m
      → Step s (record s { semaphore = m; taken = s.taken + 1 })
  waits :
      (p : ℕ) (m : Semaphore)
      → Runs p 0 false s.semaphore.chan
      → wait_ksemaphore s.semaphore ≡ leaves to_scheduler m
      → Step s (record s { semaphore = m })
  takes_late :
      (p : ℕ) (m : Semaphore)
      → Runs p 1 true s.semaphore.chan
      → resume_ksemaphore s.semaphore ≡ ok m
      → Step s (record s { semaphore = m; taken = s.taken + 1 })
  waits_again :
      (p : ℕ) (m : Semaphore)
      → Runs p 1 true s.semaphore.chan
      → resume_ksemaphore s.semaphore ≡ leaves to_scheduler m
      → Step s (record s { semaphore = m })
  signals :
      (p : ℕ) (m : Semaphore)
      → Runs p 0 false s.semaphore.chan
      → HaveQueues s.semaphore.chan.queue s.semaphore.chan.scheduler
      → s.semaphore.count + 1 < 2 ^ 31
      → signal_ksemaphore s.semaphore ≡ ok m
      → Step s (record s { semaphore = m; given = s.given + 1 })
  schedules :
      (t : Sched)
      → Step s (record s {
        semaphore = record s.semaphore { chan = record s.semaphore.chan { scheduler = t } };
      })

pub data Reaches (s : System) : System → Type 0 where
  start : Reaches s s
  step : {t u : System} → Reaches s t → Step t u → Reaches s u

-- `value` is what init_ksemaphore was given.
pub record CountValid (value : ℕ) (s : System) : Type 0 where
  pub balance : s.semaphore.count + s.taken ≡ value + s.given
  pub small : s.semaphore.count < 2 ^ 31
  pub not_lost : is_positive s.semaphore.count ≡ true → s.semaphore.chan.queue ≡ []

taken-CountValid :
    (value p : ℕ) (s : System) (m : Semaphore)
    → CountValid value s
    → Takes p s.semaphore m
    → CountValid value (record s { semaphore = m; taken = s.taken + 1 })
taken-CountValid value p s m v e = record {
  balance = omega (arith, v.balance, e.one_less);
  small = omega (arith, v.small, e.one_less);
  not_lost = λ _. e.queue ∙ v.not_lost e.was_positive;
}

waiting-CountValid :
    (value p : ℕ) (s : System) (m : Semaphore)
    → CountValid value s
    → Waits p s.semaphore m
    → CountValid value (record s { semaphore = m })
waiting-CountValid value p s m v e = record {
  balance = omega (arith, v.balance, e.same);
  small = omega (arith, v.small, e.same);
  not_lost = λ t. absurd (ground (arith, t, ap is_positive e.same, e.was_not));
}

signalled-CountValid :
    (value p : ℕ) (s : System) (m : Semaphore)
    → CountValid value s
    → s.semaphore.count + 1 < 2 ^ 31
    → Signals p s.semaphore m
    → CountValid value (record s { semaphore = m; given = s.given + 1 })
signalled-CountValid value p s m v lt e = record {
  balance = omega (arith, v.balance, e.one_more, lt);
  small = omega (arith, e.one_more, lt);
  not_lost = λ _. e.nobody;
}

Step-CountValid : (value : ℕ) {s t : System} → Step s t → CountValid value s → CountValid value t
Step-CountValid value {s} (takes p m r call) v = elim (wait_ksemaphore_lem p s.semaphore r) [
  | inl (n, c, e) ↦ taken-CountValid value p s m v (
      subst (Takes p s.semaphore)
        (same_result s.semaphore n m to_scheduler (wait_ksemaphore s.semaphore) (inl c) (inl call))
        e)
  | inr (n, c, e) ↦ absurd (ground (arith, c, call))
]
Step-CountValid value {s} (waits p m r call) v = elim (wait_ksemaphore_lem p s.semaphore r) [
  | inl (n, c, e) ↦ absurd (ground (arith, c, call))
  | inr (n, c, e) ↦ waiting-CountValid value p s m v (
      subst (Waits p s.semaphore)
        (same_result s.semaphore n m to_scheduler (wait_ksemaphore s.semaphore) (inr c) (inr call))
        e)
]
Step-CountValid value {s} (takes_late p m r call) v = elim (resume_ksemaphore_lem p s.semaphore r) [
  | inl (n, c, e) ↦ taken-CountValid value p s m v (
      subst (Takes p s.semaphore)
        (same_result s.semaphore n m to_scheduler (resume_ksemaphore s.semaphore) (inl c)
          (inl call))
        e)
  | inr (n, c, e) ↦ absurd (ground (arith, c, call))
]
Step-CountValid value {s} (waits_again p m r call) v =
    elim (resume_ksemaphore_lem p s.semaphore r) [
      | inl (n, c, e) ↦ absurd (ground (arith, c, call))
      | inr (n, c, e) ↦ waiting-CountValid value p s m v (
          subst (Waits p s.semaphore)
            (same_result s.semaphore n m to_scheduler (resume_ksemaphore s.semaphore) (inr c)
              (inr call))
            e)
    ]
Step-CountValid value {s} (signals p m r h lt call) v =
    let (n, c, e) = signal_ksemaphore_lem p s.semaphore r h in
    signalled-CountValid value p s m v lt (
      subst (Signals p s.semaphore)
        (same_result s.semaphore n m to_scheduler (signal_ksemaphore s.semaphore) (inl c)
          (inl call))
        e)
Step-CountValid value (schedules t) v = record {
  balance = v.balance;
  small = v.small;
  not_lost = v.not_lost;
}

pub Reaches-CountValid :
    (value : ℕ) {s t : System} → Reaches s t → CountValid value s → CountValid value t
Reaches-CountValid value start v = v
Reaches-CountValid value (step r t) v = Step-CountValid value t (Reaches-CountValid value r v)

-- Whatever order processes wait for a semaphore and signal it in, with any scheduling between and
-- as long as the count stays below 2 ^ 31: from the value of init_ksemaphore with an empty channel,
-- every state reached has the value and the signals as its count and the waits that have returned,
-- so that no more waits return than that, and no process is left on the channel while the count
-- is positive.
pub count_conserved :
    (value : ℕ) (s t : System)
    → s.semaphore.count ≡ value
    → value < 2 ^ 31
    → s.semaphore.chan.queue ≡ []
    → s.taken ≡ 0
    → s.given ≡ 0
    → Reaches s t
    → CountValid value t
count_conserved value s t c lt empty a b r = Reaches-CountValid value r (record {
  balance = omega (arith, c, a, b);
  small = omega (arith, c, lt);
  not_lost = λ _. empty;
})
