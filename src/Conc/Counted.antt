-- ===== src/Conc/Counted.antt =====
-- kern/conc/ksemaphore.c: what wait_ksemaphore and signal_ksemaphore do on each branch.
use fos_operational_system_f.Common.{
  ℕ, Bool, ◌+◌, ◌-◌, ◌%◌, ◌^◌, ◌≡◌, refl, ◌∙◌, ◌⊎◌, inl, inr, true, false, some, [], ◌∷◌, arith,
  ltb, length, List-cases, contains, Bool-cases,
}
use fos_operational_system_f.Common.Outcome.{ok, leaves, to_scheduler}
use fos_operational_system_f.Sched.State.{ready, blocked, release}
use fos_operational_system_f.Sched.Setup.{queue_size}
use fos_operational_system_f.Conc.Channel.{Channel, acquire_lk, release_lk, awake}
use fos_operational_system_f.Conc.Semaphore.{
  Semaphore, is_positive, try_ksemaphore, wait_ksemaphore, resume_ksemaphore, signal_ksemaphore,
}
use fos_operational_system_f.Conc.Asleep.{Runs, slept, sleep_lem}
use fos_operational_system_f.Conc.Woken.{HaveQueues, wakeup_all_lem}

-- The count was positive, and the process has taken one.
pub record Takes (p : ℕ) (k m : Semaphore) : Type 0 where
  pub was_positive : is_positive k.count ≡ true
  pub one_less : m.count + 1 ≡ k.count
  pub queue : m.chan.queue ≡ k.chan.queue
  pub runs : Runs p 0 false m.chan

-- The count was not positive, and the process is blocked in front of the channel.
pub record Waits (p : ℕ) (k m : Semaphore) : Type 0 where
  pub was_not : is_positive k.count ≡ false
  pub same : m.count ≡ k.count
  pub queue : m.chan.queue ≡ p ∷ k.chan.queue
  pub asleep : (m.chan.scheduler.envs p).env_status ≡ blocked
  pub runs : Runs p 1 true m.chan

-- The rest of wait_ksemaphore, from a turn of its loop on.
module _ (p : ℕ) (k : Semaphore) (guarded : k.chan.lk ≡ true)
    (free : k.chan.scheduler.qlock ≡ false) (nesting : k.chan.scheduler.ncli ≡ 1)
    (current : k.chan.scheduler.proc ≡ some p) where
  pub try_ksemaphore_lem :
      ((m : Semaphore) × (try_ksemaphore k ≡ ok m) × Takes p k m)
      ⊎ ((m : Semaphore) × (try_ksemaphore k ≡ leaves to_scheduler m) × Waits p k m)
  unfolding try_ksemaphore release_lk
  try_ksemaphore_lem = elim (Bool-cases (is_positive k.count)) [
    | inl t ↦ inl (
      record {
        count = k.count - 1;
        chan = record k.chan {
          lk = false;
          scheduler = record k.chan.scheduler { ncli = k.chan.scheduler.ncli - 1 };
        };
      },
      rw (t, guarded) refl,
      record {
        was_positive = t;
        one_less = ground (arith, t);
        queue = refl;
        runs = record {
          current = current;
          unguarded = refl;
          nesting = omega (arith, nesting);
          queues = free;
        };
      },
    )
    | inr f ↦ inr (
      record k { chan = slept p k.chan },
      rw (f, sleep_lem p k.chan guarded free nesting current) refl,
      record {
        was_not = f;
        same = refl;
        queue = refl;
        asleep = ground arith;
        runs = record {
          current = current;
          unguarded = refl;
          nesting = omega (arith, nesting);
          queues = refl;
        };
      },
    )
  ]

-- The semaphore with its guard held.
abbrev guarded_semaphore : Bool → ℕ → Semaphore → Semaphore
guarded_semaphore q n k = record k {
  chan = record k.chan { lk = true; scheduler = record k.chan.scheduler { qlock = q; ncli = n } };
}

Takes-guarded_semaphore :
    (p : ℕ) (k m : Semaphore) (q : Bool) (n : ℕ) → Takes p (guarded_semaphore q n k) m → Takes p k m
Takes-guarded_semaphore p k m q n e = record {
  was_positive = e.was_positive;
  one_less = e.one_less;
  queue = e.queue;
  runs = e.runs;
}

Waits-guarded_semaphore :
    (p : ℕ) (k m : Semaphore) (q : Bool) (n : ℕ) → Waits p (guarded_semaphore q n k) m → Waits p k m
Waits-guarded_semaphore p k m q n e = record {
  was_not = e.was_not;
  same = e.same;
  queue = e.queue;
  asleep = e.asleep;
  runs = e.runs;
}

-- From a process that runs with the lock of the queues free and interrupts on, wait_ksemaphore
-- takes one from a positive count and returns, and else blocks the process on the channel and
-- hands the CPU to the scheduler; it never panics.
pub wait_ksemaphore_lem :
    (p : ℕ) (k : Semaphore)
    → Runs p 0 false k.chan
    → ((m : Semaphore) × (wait_ksemaphore k ≡ ok m) × Takes p k m)
      ⊎ ((m : Semaphore) × (wait_ksemaphore k ≡ leaves to_scheduler m) × Waits p k m)
unfolding wait_ksemaphore acquire_lk
wait_ksemaphore_lem p k r =
    let g : Semaphore = guarded_semaphore k.chan.scheduler.qlock (k.chan.scheduler.ncli + 1) k in
    let t = try_ksemaphore_lem p g refl r.queues (omega (arith, r.nesting)) r.current in
    elim t [
      | inl (m, call, e) ↦ inl (
        m,
        rw (r.unguarded) call,
        Takes-guarded_semaphore p k m k.chan.scheduler.qlock (k.chan.scheduler.ncli + 1) e,
      )
      | inr (m, call, e) ↦ inr (
        m,
        rw (r.unguarded) call,
        Waits-guarded_semaphore p k m k.chan.scheduler.qlock (k.chan.scheduler.ncli + 1) e,
      )
    ]

pub resume_ksemaphore_lem :
    (p : ℕ) (k : Semaphore)
    → Runs p 1 true k.chan
    → ((m : Semaphore) × (resume_ksemaphore k ≡ ok m) × Takes p k m)
      ⊎ ((m : Semaphore) × (resume_ksemaphore k ≡ leaves to_scheduler m) × Waits p k m)
unfolding resume_ksemaphore awake acquire_lk release
resume_ksemaphore_lem p k r =
    let g : Semaphore = guarded_semaphore false (k.chan.scheduler.ncli + 1 - 1) k in
    let t = try_ksemaphore_lem p g refl refl (omega (arith, r.nesting)) r.current in
    elim t [
      | inl (m, call, e) ↦ inl (
        m,
        rw (r.unguarded, r.queues) call,
        Takes-guarded_semaphore p k m false (k.chan.scheduler.ncli + 1 - 1) e,
      )
      | inr (m, call, e) ↦ inr (
        m,
        rw (r.unguarded, r.queues) call,
        Waits-guarded_semaphore p k m false (k.chan.scheduler.ncli + 1 - 1) e,
      )
    ]

-- The count is one more, and everyone who waited is awake.
pub record Signals (p : ℕ) (k m : Semaphore) : Type 0 where
  pub one_more : m.count ≡ (k.count + 1) % 2 ^ 32
  pub nobody : m.chan.queue ≡ []
  pub awake :
      (e : ℕ) → contains e k.chan.queue ≡ true → (m.chan.scheduler.envs e).env_status ≡ ready
  pub runs : Runs p 0 false m.chan

-- From a process that runs with the lock of the queues free and interrupts on, signal_ksemaphore
-- returns, provided that each process of the channel has a ready queue. The count is one more
-- then, the channel empty, and each process that waited on it READY.
pub signal_ksemaphore_lem :
    (p : ℕ) (k : Semaphore)
    → Runs p 0 false k.chan
    → HaveQueues k.chan.queue k.chan.scheduler
    → (m : Semaphore) × (signal_ksemaphore k ≡ ok m) × Signals p k m
unfolding signal_ksemaphore acquire_lk release_lk queue_size contains
signal_ksemaphore_lem p k r h =
    let g : Channel = record k.chan {
      lk = true;
      scheduler = record k.chan.scheduler { ncli = k.chan.scheduler.ncli + 1 };
    } in
    elim (List-cases k.chan.queue) [
      | inl z ↦ (
        record {
          count = (k.count + 1) % 2 ^ 32;
          chan = record g {
            lk = false;
            scheduler = record g.scheduler { ncli = g.scheduler.ncli - 1 };
          };
        },
        rw (r.unguarded, z) refl,
        record {
          one_more = refl;
          nobody = z;
          awake = λ e there. absurd (ground (arith, there, z));
          runs = record {
            current = r.current;
            unguarded = refl;
            nesting = omega (arith, r.nesting);
            queues = r.queues;
          };
        },
      )
      | inr (f, rest, z) ↦
          let (d, call, empty, guard, free, nest, proc, _, status, _) =
            wakeup_all_lem g r.queues (record { queues = h.queues }) in
          let some_asleep : ltb 0 (length k.chan.queue) ≡ true = ground (arith, z) in
          (
            record {
              count = (k.count + 1) % 2 ^ 32;
              chan = record d {
                lk = false;
                scheduler = record d.scheduler { ncli = d.scheduler.ncli - 1 };
              };
            },
            rw (r.unguarded, some_asleep, call, guard) refl,
            record {
              one_more = refl;
              nobody = empty;
              awake = status;
              runs = record {
                current = proc ∙ r.current;
                unguarded = refl;
                nesting = omega (arith, nest, r.nesting);
                queues = free;
              };
            },
          )
    ]
