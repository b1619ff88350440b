-- ===== src/Conc/Held.antt =====
-- kern/conc/sleeplock.c: holding_sleeplock after acquire_sleeplock.
use fos_operational_system_f.Common.{ℕ, ◌+◌, ◌-◌, ◌≡◌, ◌≢◌, ap, inl, inr, true, false, ◌==◌, arith}
use fos_operational_system_f.Common.Outcome.{ok}
use fos_operational_system_f.Conc.Asleep.{Runs}
use fos_operational_system_f.Conc.Channel.{Channel, acquire_lk, release_lk}
use fos_operational_system_f.Conc.Sleeplock.{Sleeplock, acquire_sleeplock, holding_sleeplock}
use fos_operational_system_f.Conc.Locked.{acquire_sleeplock_lem}

-- A process whose id is not 0 takes a free lock whose `pid` is 0, as init_sleeplock leaves it:
-- acquire_sleeplock returns with the lock held, and holding_sleeplock then tells the process that
-- it does not hold it.
pub holding_sleeplock_lem :
    (p : ℕ) (l : Sleeplock)
    → Runs p 0 false l.chan
    → l.locked ≡ false
    → l.pid ≡ 0
    → (l.chan.scheduler.envs p).env_id ≢ 0
    → (m : Sleeplock) × (acquire_sleeplock l ≡ ok m)
      × (m.locked ≡ true)
      × ((c : Channel) × (holding_sleeplock m ≡ ok (false, c)))
unfolding holding_sleeplock acquire_lk release_lk
holding_sleeplock_lem p l r f z id = elim (acquire_sleeplock_lem p l r) [
  | inr (m, call, e) ↦ absurd (ground (arith, e.was_held, f))
  | inl (m, call, e) ↦
      let not_mine : (m.pid == (m.chan.scheduler.envs p).env_id) ≡ false =
        ground (arith, e.owner, z, id, ap (λ x. (x p).env_id) e.same_envs) in
      (
        m,
        call,
        e.has,
        (
          record m.chan {
            lk = false;
            scheduler = record m.chan.scheduler { ncli = m.chan.scheduler.ncli + 1 - 1 };
          },
          ground (arith, e.runs.unguarded, e.has, e.runs.current, not_mine),
        ),
      )
]
