-- ===== src/Conc/Exclusion.antt =====
-- kern/conc/sleeplock.c: processes that take and drop a sleep lock, in any order.
use fos_operational_system_f.Common.{
  ℕ, ◌≡◌, ◌≢◌, ap, sym, subst, ◌∙◌, inl, inr, true, false, [], arith, update, contains,
}
use native.Mathlib.Decide.{ℕ_discrete}
use fos_operational_system_f.Common.Outcome.{ok, leaves, to_scheduler, same_result}
use fos_operational_system_f.Sched.State.{Sched}
use fos_operational_system_f.Conc.Sleeplock.{
  Sleeplock, acquire_sleeplock, resume_sleeplock, release_sleeplock,
}
use fos_operational_system_f.Conc.Woken.{HaveQueues}
use fos_operational_system_f.Conc.Asleep.{Runs}
use fos_operational_system_f.Conc.Locked.{
  Enters, Sleeps, Leaves, acquire_sleeplock_lem, resume_sleeplock_lem, release_sleeplock_lem,
}

-- Where a process is: before acquire_sleeplock, in the `sleep` inside it, or between
-- acquire_sleeplock and release_sleeplock.
pub data Place : Type 0 where
  outside waiting inside : Place

pub record System : Type 0 where
  pub lock : Sleeplock
  pub place : ℕ → Place

abbrev moved : System → ℕ → Place → Sleeplock → System
moved s p x l = record { lock = l; place = update s.place p x }

-- One step of the kernel: a call of a process up to its return or its switch to the scheduler, or
-- anything else that changes the scheduler and not the lock.
pub data Step (s : System) : System → Type 0 where
  acquires :
      (p : ℕ) (m : Sleeplock)
      → s.place p ≡ outside
      → Runs p 0 false s.lock.chan
      → acquire_sleeplock s.lock ≡ ok m
      → Step s (moved s p inside m)
  sleeps :
      (p : ℕ) (m : Sleeplock)
      → s.place p ≡ outside
      → Runs p 0 false s.lock.chan
      → acquire_sleeplock s.lock ≡ leaves to_scheduler m
      → Step s (moved s p waiting m)
  acquires_late :
      (p : ℕ) (m : Sleeplock)
      → s.place p ≡ waiting
      → contains p s.lock.chan.queue ≡ false
      → Runs p 1 true s.lock.chan
      → resume_sleeplock s.lock ≡ ok m
      → Step s (moved s p inside m)
  sleeps_again :
      (p : ℕ) (m : Sleeplock)
      → s.place p ≡ waiting
      → contains p s.lock.chan.queue ≡ false
      → Runs p 1 true s.lock.chan
      → resume_sleeplock s.lock ≡ leaves to_scheduler m
      → Step s (moved s p waiting m)
  releases :
      (p : ℕ) (m : Sleeplock)
      → s.place p ≡ inside
      → Runs p 0 false s.lock.chan
      → HaveQueues s.lock.chan.queue s.lock.chan.scheduler
      → release_sleeplock s.lock ≡ ok m
      → Step s (moved s p outside m)
  schedules :
      (t : Sched)
      → Step s (record s { lock = record s.lock { chan = record s.lock.chan { scheduler = t } } })

pub data Reaches (s : System) : System → Type 0 where
  start : Reaches s s
  step : {t u : System} → Reaches s t → Step t u → Reaches s u

pub record LockValid (s : System) : Type 0 where
  pub held : (p : ℕ) → s.place p ≡ inside → s.lock.locked ≡ true
  pub single : (p q : ℕ) → s.place p ≡ inside → s.place q ≡ inside → p ≡ q
  pub sleepers : (p : ℕ) → contains p s.lock.chan.queue ≡ true → s.place p ≡ waiting
  pub not_lost : s.lock.locked ≡ false → s.lock.chan.queue ≡ []

entered-LockValid :
    (s : System) (p : ℕ) (m : Sleeplock)
    → LockValid s
    → Enters p s.lock m
    → LockValid (moved s p inside m)
unfolding contains
entered-LockValid s p m v e = record {
  held = λ q h. e.has;
  single = λ q r h k.
      let first : (x : ℕ) → (moved s p inside m).place x ≡ inside → p ≡ x = λ x h.
        elim (ℕ_discrete p x) [
          | yes y ↦ y
          | no ne ↦ absurd (ground (arith, v.held x (ground (arith, h, ne)), e.was_free))
        ] in
      sym (first q h) ∙ first r k;
  sleepers = λ q h. absurd (ground (arith, ap (contains q) (e.queue ∙ v.not_lost e.was_free), h));
  not_lost = λ f. absurd (ground (arith, f, e.has));
}

slept-LockValid :
    (s : System) (p : ℕ) (m : Sleeplock)
    → LockValid s
    → s.place p ≢ inside
    → Sleeps p s.lock m
    → LockValid (moved s p waiting m)
unfolding contains
slept-LockValid s p m v out e = record {
  held = λ q h. e.held;
  single = λ q r h k. v.single q r (still q h) (still r k);
  sleepers = λ q h. elim (ℕ_discrete p q) [
    | yes y ↦ ground (arith, y)
    | no ne ↦ ground (arith, ne, v.sleepers q (ground (arith, ap (contains q) e.queue, h, ne)))
  ];
  not_lost = λ f. absurd (ground (arith, f, e.held));
}
  where
    still : (x : ℕ) → (moved s p waiting m).place x ≡ inside → s.place x ≡ inside
    still x h = elim (ℕ_discrete p x) [
      | yes y ↦ absurd (ground (arith, y, h))
      | no ne ↦ ground (arith, h, ne)
    ]

left-LockValid :
    (s : System) (p : ℕ) (m : Sleeplock)
    → LockValid s
    → s.place p ≡ inside
    → Leaves p s.lock m
    → LockValid (moved s p outside m)
unfolding contains
left-LockValid s p m v there e = record {
  held = λ q h. absurd (gone q h);
  single = λ q r h k. absurd (gone q h);
  sleepers = λ q h. absurd (ground (arith, ap (contains q) e.nobody, h));
  not_lost = λ f. e.nobody;
}
  where
    gone : (x : ℕ) → (moved s p outside m).place x ≢ inside
    gone x h = elim (ℕ_discrete p x) [
      | yes y ↦ ground (arith, y, h)
      | no ne ↦ ne (v.single p x there (ground (arith, h, ne)))
    ]

Step-LockValid : {s t : System} → Step s t → LockValid s → LockValid t
Step-LockValid {s} (acquires p m at r call) v = elim (acquire_sleeplock_lem p s.lock r) [
  | inl (n, c, e) ↦ entered-LockValid s p m v (
      subst (Enters p s.lock)
        (same_result s.lock n m to_scheduler (acquire_sleeplock s.lock) (inl c) (inl call)) e)
  | inr (n, c, e) ↦ absurd (ground (arith, c, call))
]
Step-LockValid {s} (sleeps p m at r call) v = elim (acquire_sleeplock_lem p s.lock r) [
  | inl (n, c, e) ↦ absurd (ground (arith, c, call))
  | inr (n, c, e) ↦
      slept-LockValid s p m v (λ i. ground (arith, i, at))
        (subst (Sleeps p s.lock)
          (same_result s.lock n m to_scheduler (acquire_sleeplock s.lock) (inr c) (inr call)) e)
]
Step-LockValid {s} (acquires_late p m at out r call) v = elim (resume_sleeplock_lem p s.lock r) [
  | inl (n, c, e) ↦ entered-LockValid s p m v (
      subst (Enters p s.lock)
        (same_result s.lock n m to_scheduler (resume_sleeplock s.lock) (inl c) (inl call)) e)
  | inr (n, c, e) ↦ absurd (ground (arith, c, call))
]
Step-LockValid {s} (sleeps_again p m at out r call) v = elim (resume_sleeplock_lem p s.lock r) [
  | inl (n, c, e) ↦ absurd (ground (arith, c, call))
  | inr (n, c, e) ↦
      slept-LockValid s p m v (λ i. ground (arith, i, at))
        (subst (Sleeps p s.lock)
          (same_result s.lock n m to_scheduler (resume_sleeplock s.lock) (inr c) (inr call)) e)
]
Step-LockValid {s} (releases p m at r h call) v =
    let (n, c, e) = release_sleeplock_lem p s.lock r h in
    left-LockValid s p m v at (
      subst (Leaves p s.lock)
        (same_result s.lock n m to_scheduler (release_sleeplock s.lock) (inl c) (inl call)) e)
Step-LockValid (schedules t) v = record {
  held = v.held;
  single = v.single;
  sleepers = v.sleepers;
  not_lost = v.not_lost;
}

pub Reaches-LockValid : {s t : System} → Reaches s t → LockValid s → LockValid t
Reaches-LockValid start v = v
Reaches-LockValid (step r t) v = Step-LockValid t (Reaches-LockValid r v)

-- Whatever order processes take and drop a sleep lock in, with any scheduling between, and with
-- release_sleeplock called by its holder only: from a state where the lock is free, its channel is
-- empty and no process is inside, every state reached has at most one process inside, the lock is
-- held while one is, only processes that wait for the lock are on its channel, and none is left
-- on the channel of a free lock.
pub mutual_exclusion :
    (s t : System)
    → s.lock.locked ≡ false
    → s.lock.chan.queue ≡ []
    → ((p : ℕ) → s.place p ≡ outside)
    → Reaches s t
    → LockValid t
unfolding contains
mutual_exclusion s t free empty out r = Reaches-LockValid r (record {
  held = λ p h. absurd (ground (arith, out p, h));
  single = λ p q h k. absurd (ground (arith, out p, h));
  sleepers = λ p h. absurd (ground (arith, ap (contains p) empty, h));
  not_lost = λ _. empty;
})
