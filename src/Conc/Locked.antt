-- ===== src/Conc/Locked.antt =====
-- kern/conc/sleeplock.c: what acquire_sleeplock and release_sleeplock do on each branch.
use fos_operational_system_f.Common.{
  ℕ, Bool, ◌+◌, ◌-◌, ◌≡◌, refl, ◌∙◌, ◌⊎◌, inl, inr, true, false, some, [], ◌∷◌, arith, ltb, length,
  List-cases, contains, Bool-cases,
}
use fos_operational_system_f.Common.Outcome.{ok, leaves, to_scheduler}
use fos_operational_system_f.Sched.State.{ready, blocked, release}
use fos_operational_system_f.Sched.Setup.{queue_size}
use fos_operational_system_f.Conc.Channel.{Channel, acquire_lk, release_lk, awake}
use fos_operational_system_f.Conc.Sleeplock.{
  Sleeplock, try_sleeplock, acquire_sleeplock, resume_sleeplock, release_sleeplock,
}
use fos_operational_system_f.Conc.Asleep.{Runs, slept, sleep_lem}
use fos_operational_system_f.Conc.Woken.{HaveQueues, wakeup_all_lem}

-- The lock was free, and the process has it.
pub record Enters (p : ℕ) (l m : Sleeplock) : Type 0 where
  pub was_free : l.locked ≡ false
  pub has : m.locked ≡ true
  pub queue : m.chan.queue ≡ l.chan.queue
  pub owner : m.pid ≡ l.pid
  pub same_envs : m.chan.scheduler.envs ≡ l.chan.scheduler.envs
  pub runs : Runs p 0 false m.chan

-- The lock was held, and the process is blocked, in front of the channel, with the lock of the
-- queues for the scheduler to drop.
pub record Sleeps (p : ℕ) (l m : Sleeplock) : Type 0 where
  pub was_held : l.locked ≡ true
  pub held : m.locked ≡ true
  pub queue : m.chan.queue ≡ p ∷ l.chan.queue
  pub asleep : (m.chan.scheduler.envs p).env_status ≡ blocked
  pub runs : Runs p 1 true m.chan

-- The rest of acquire_sleeplock, from a turn of its loop on.
module _ (p : ℕ) (l : Sleeplock) (guarded : l.chan.lk ≡ true)
    (free : l.chan.scheduler.qlock ≡ false) (nesting : l.chan.scheduler.ncli ≡ 1)
    (current : l.chan.scheduler.proc ≡ some p) where
  abbrev entered : Sleeplock
  entered = record l {
    locked = true;
    chan = record l.chan {
      lk = false;
      scheduler = record l.chan.scheduler { ncli = l.chan.scheduler.ncli - 1 };
    };
  }

  pub try_sleeplock_lem :
      ((m : Sleeplock) × (try_sleeplock l ≡ ok m) × Enters p l m)
      ⊎ ((m : Sleeplock) × (try_sleeplock l ≡ leaves to_scheduler m) × Sleeps p l m)
  unfolding try_sleeplock release_lk
  try_sleeplock_lem = elim (Bool-cases l.locked) [
    | inr f ↦ inl (
      entered,
      rw (f, guarded) refl,
      record {
        was_free = f;
        has = refl;
        queue = refl;
        owner = refl;
        same_envs = refl;
        runs = record {
          current = current;
          unguarded = refl;
          nesting = omega (arith, nesting);
          queues = free;
        };
      },
    )
    | inl t ↦ inr (
      record l { chan = slept p l.chan },
      rw (t, sleep_lem p l.chan guarded free nesting current) refl,
      record {
        was_held = t;
        held = t;
        queue = refl;
        asleep = ground arith;
        runs = record {
          current = current;
          unguarded = refl;
          nesting = omega (arith, nesting);
          queues = refl;
        };
      },
    )
  ]

-- The lock with its guard held.
abbrev guarded_lock : Bool → ℕ → Sleeplock → Sleeplock
guarded_lock q n l = record l {
  chan = record l.chan { lk = true; scheduler = record l.chan.scheduler { qlock = q; ncli = n } };
}

Enters-guarded_lock :
    (p : ℕ) (l m : Sleeplock) (q : Bool) (n : ℕ) → Enters p (guarded_lock q n l) m → Enters p l m
Enters-guarded_lock p l m q n e = record {
  was_free = e.was_free;
  has = e.has;
  queue = e.queue;
  owner = e.owner;
  same_envs = e.same_envs;
  runs = e.runs;
}

Sleeps-guarded_lock :
    (p : ℕ) (l m : Sleeplock) (q : Bool) (n : ℕ) → Sleeps p (guarded_lock q n l) m → Sleeps p l m
Sleeps-guarded_lock p l m q n e = record {
  was_held = e.was_held;
  held = e.held;
  queue = e.queue;
  asleep = e.asleep;
  runs = e.runs;
}

-- From a process that runs with the lock of the queues free and interrupts on, acquire_sleeplock
-- takes a free lock and returns, and on a held lock blocks the process on the channel and hands
-- the CPU to the scheduler; it never panics.
pub acquire_sleeplock_lem :
    (p : ℕ) (l : Sleeplock)
    → Runs p 0 false l.chan
    → ((m : Sleeplock) × (acquire_sleeplock l ≡ ok m) × Enters p l m)
      ⊎ ((m : Sleeplock) × (acquire_sleeplock l ≡ leaves to_scheduler m) × Sleeps p l m)
unfolding acquire_sleeplock acquire_lk
acquire_sleeplock_lem p l r =
    let g : Sleeplock = guarded_lock l.chan.scheduler.qlock (l.chan.scheduler.ncli + 1) l in
    let t = try_sleeplock_lem p g refl r.queues (omega (arith, r.nesting)) r.current in
    elim t [
      | inl (m, call, e) ↦ inl (
        m,
        rw (r.unguarded) call,
        Enters-guarded_lock p l m l.chan.scheduler.qlock (l.chan.scheduler.ncli + 1) e,
      )
      | inr (m, call, e) ↦ inr (
        m,
        rw (r.unguarded) call,
        Sleeps-guarded_lock p l m l.chan.scheduler.qlock (l.chan.scheduler.ncli + 1) e,
      )
    ]

-- A process that the scheduler has switched back to inside `sleep` tests the lock again, and takes
-- it if it is free and sleeps again if it is not; it never panics.
pub resume_sleeplock_lem :
    (p : ℕ) (l : Sleeplock)
    → Runs p 1 true l.chan
    → ((m : Sleeplock) × (resume_sleeplock l ≡ ok m) × Enters p l m)
      ⊎ ((m : Sleeplock) × (resume_sleeplock l ≡ leaves to_scheduler m) × Sleeps p l m)
unfolding resume_sleeplock awake acquire_lk release
resume_sleeplock_lem p l r =
    let g : Sleeplock = guarded_lock false (l.chan.scheduler.ncli + 1 - 1) l in
    let t = try_sleeplock_lem p g refl refl (omega (arith, r.nesting)) r.current in
    elim t [
      | inl (m, call, e) ↦ inl (
        m,
        rw (r.unguarded, r.queues) call,
        Enters-guarded_lock p l m false (l.chan.scheduler.ncli + 1 - 1) e,
      )
      | inr (m, call, e) ↦ inr (
        m,
        rw (r.unguarded, r.queues) call,
        Sleeps-guarded_lock p l m false (l.chan.scheduler.ncli + 1 - 1) e,
      )
    ]

-- The lock is free, and everyone who slept on it is awake.
pub record Leaves (p : ℕ) (l m : Sleeplock) : Type 0 where
  pub unlocked : m.locked ≡ false
  pub nobody : m.chan.queue ≡ []
  pub awake :
      (e : ℕ) → contains e l.chan.queue ≡ true → (m.chan.scheduler.envs e).env_status ≡ ready
  pub runs : Runs p 0 false m.chan

-- From a process that runs with the lock of the queues free and interrupts on, release_sleeplock
-- returns, provided that each process of the channel has a ready queue. The lock is free then, the
-- channel empty, and each process that slept on it READY.
pub release_sleeplock_lem :
    (p : ℕ) (l : Sleeplock)
    → Runs p 0 false l.chan
    → HaveQueues l.chan.queue l.chan.scheduler
    → (m : Sleeplock) × (release_sleeplock l ≡ ok m) × Leaves p l m
unfolding release_sleeplock acquire_lk release_lk queue_size contains
release_sleeplock_lem p l r h =
    let g : Channel = record l.chan {
      lk = true;
      scheduler = record l.chan.scheduler { ncli = l.chan.scheduler.ncli + 1 };
    } in
    elim (List-cases l.chan.queue) [
      | inl z ↦ (
        record l {
          locked = false;
          chan = record g {
            lk = false;
            scheduler = record g.scheduler { ncli = g.scheduler.ncli - 1 };
          };
        },
        rw (r.unguarded, z) refl,
        record {
          unlocked = refl;
          nobody = z;
          awake = λ e there. absurd (ground (arith, there, z));
          runs = record {
            current = r.current;
            unguarded = refl;
            nesting = omega (arith, r.nesting);
            queues = r.queues;
          };
        },
      )
      | inr (f, rest, z) ↦
          let (d, call, empty, guard, free, nest, proc, _, status, _) =
            wakeup_all_lem g r.queues (record { queues = h.queues }) in
          let some_asleep : ltb 0 (length l.chan.queue) ≡ true = ground (arith, z) in
          (
            record l {
              locked = false;
              chan = record d {
                lk = false;
                scheduler = record d.scheduler { ncli = d.scheduler.ncli - 1 };
              };
            },
            rw (r.unguarded, some_asleep, call, guard) refl,
            record {
              unlocked = refl;
              nobody = empty;
              awake = status;
              runs = record {
                current = proc ∙ r.current;
                unguarded = refl;
                nesting = omega (arith, nest, r.nesting);
                queues = free;
              };
            },
          )
    ]
