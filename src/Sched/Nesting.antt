-- ===== src/Sched/Nesting.antt =====
-- The matching of pushcli and popcli (kern/cpu/cpu.c).
use fos_operational_system_f.Common.{ℕ, zero, suc, ◌-◌, ◌≤◌, ◌≡◌, Bool, false, arith, ap, ◌∙◌}
use fos_operational_system_f.Common.Outcome.{Outcome, ok, ◌>>=◌}
use fos_operational_system_f.Sched.Setup.{Interrupts, pushcli, popcli}

unfoldable pub push_times : ℕ → Interrupts → Interrupts
push_times zero c = c
push_times (suc n) c = pushcli (push_times n c)

unfoldable pub pop_times : ℕ → Interrupts → Outcome Interrupts Interrupts
pop_times zero c = ok c
pop_times (suc n) c = popcli c >>= pop_times n

abbrev pub off : Bool → ℕ → Interrupts
off i n = record { enabled = false; intena = i; ncli = n }

push_times_lem :
    (n : ℕ) (c : Interrupts) → c.ncli ≡ 0 → push_times (suc n) c ≡ off c.enabled (suc n)
unfolding push_times pushcli
push_times_lem zero c z = ground (arith, z)
push_times_lem (suc n) c z = ground (arith, push_times_lem n c z)

pop_times-off : (k n : ℕ) (i : Bool) → k ≤ n → pop_times k (off i (suc n)) ≡ ok (off i (suc n - k))
unfolding pop_times popcli
pop_times-off zero n i le = ground arith
pop_times-off (suc k) zero i le = absurd (omega arith)
pop_times-off (suc k) (suc n) i le = ground (arith, pop_times-off k n i (omega arith))

pop_times-last :
    (n : ℕ) (i : Bool)
    → pop_times (suc n) (off i (suc n)) ≡ ok (record { enabled = i; intena = i; ncli = 0 })
unfolding pop_times popcli
pop_times-last zero i = ground arith
pop_times-last (suc n) i = ground (arith, pop_times-last n i)

-- On a CPU with no pushcli open, after n + 1 calls of pushcli interrupts are off, they stay off
-- for the first n calls of popcli, none of which panics, and the last one makes them what they
-- were before the first pushcli.
pub popcli_lem :
    (n : ℕ) (c : Interrupts)
    → c.ncli ≡ 0
    → ((k : ℕ) → k ≤ n → pop_times k (push_times (suc n) c) ≡ ok (off c.enabled (suc n - k)))
      × (pop_times (suc n) (push_times (suc n) c)
          ≡ ok (record { enabled = c.enabled; intena = c.enabled; ncli = 0 }))
popcli_lem n c z =
    let e = push_times_lem n c z in
    (
      λ k le. ap (pop_times k) e ∙ pop_times-off k n c.enabled le,
      ap (pop_times (suc n)) e ∙ pop_times-last n c.enabled,
    )
