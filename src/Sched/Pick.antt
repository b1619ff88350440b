-- ===== src/Sched/Pick.antt =====
-- The priority scheduler of kern/cpu/sched.c: which process it picks, and what it leaves queued.
use fos_operational_system_f.Common.{
  List-cases, ◌∙◌, ℕ, zero, suc, ◌+◌, ◌≤◌, ◌<◌, ◌≡◌, refl, ap, ◌⊎◌, inl, inr, Option, none, some,
  List, [], ◌∷◌, ◌++◌, arith, ◌==◌, if◌then◌else◌,
}
use fos_operational_system_f.Common.Outcome.{ok}
use fos_operational_system_f.Sched.State.{Sched, dequeue, set_ready}
use fos_operational_system_f.Sched.Select.{requeue, pick_loop, current_priority}

-- A queue that is not empty gives up its last process.
pub dequeue_last :
    (x : ℕ) (xs : List ℕ)
    → (e : ℕ) × (q : List ℕ) × (dequeue (x ∷ xs) ≡ (some e, q)) × (x ∷ xs ≡ q ++ e ∷ [])
unfolding dequeue
dequeue_last x [] = (x, [], refl, refl)
dequeue_last x (y ∷ xs) =
    let (e, q, d, a) = dequeue_last y xs in (e, x ∷ q, ground arith, ground arith)

-- What a pick of process `e` from queue `p` means, over the queues `from`, `from + 1`, ...
pub record Picked (from : ℕ) (s : Sched) (e p : ℕ) (t : Sched) : Type 0 where
  pub rest : List ℕ
  pub at_least : from ≤ p
  pub within : p < s.num_of_ready_queues
  pub oldest : s.env_ready_queues p ≡ rest ++ e ∷ []
  pub above_empty : (j : ℕ) → from ≤ j → j < p → s.env_ready_queues j ≡ []
  pub after : t ≡ set_ready s p rest

abbrev pub NonePicked : ℕ → ℕ → Sched → Type 0
NonePicked from n s = (j : ℕ) → from ≤ j → j < from + n → s.env_ready_queues j ≡ []

abbrev pub PickResult : ℕ → ℕ → Sched → Type 0
PickResult from n s =
    ((pick_loop n from s ≡ (none, s)) × NonePicked from n s)
    ⊎ ((e : ℕ) × (p : ℕ) × (t : Sched) × (pick_loop n from s ≡ (some e, t)) × Picked from s e p t)

-- The queue `i` is empty, so the loop goes on.
pick_skip :
    (n i : ℕ) (s : Sched)
    → s.env_ready_queues i ≡ []
    → PickResult (i + 1) n s
    → PickResult i (suc n) s
unfolding pick_loop
pick_skip n i s empty (inl (q, h)) = inl (rw (empty, pick_loop) q, λ j a b. grind (arith, h))
pick_skip n i s empty (inr (e, p, t, q, k)) = inr (
  e,
  p,
  t,
  rw (empty, pick_loop) q,
  record {
    rest = k.rest;
    at_least = omega (arith, k.at_least);
    within = k.within;
    oldest = k.oldest;
    above_empty = λ j a b. grind (arith, k.above_empty);
    after = k.after;
  },
)

pick_here :
    (n i x : ℕ) (xs : List ℕ) (s : Sched)
    → i < s.num_of_ready_queues
    → s.env_ready_queues i ≡ x ∷ xs
    → PickResult i (suc n) s
unfolding pick_loop
pick_here n i x xs s h q =
    let (e, r, d, a) = dequeue_last x xs in
    inr (
      e,
      i,
      set_ready s i r,
      rw (q, pick_loop) (ap (λ (o : Option ℕ × List ℕ). (o.0, set_ready s i o.1)) d),
      record {
        rest = r;
        at_least = omega arith;
        within = h;
        oldest = q ∙ a;
        above_empty = λ j b c. absurd (omega arith);
        after = refl;
      },
    )

pub pick_loop_lem : (n i : ℕ) (s : Sched) → i + n ≡ s.num_of_ready_queues → PickResult i n s
unfolding pick_loop
pick_loop_lem zero i s h = inl (refl, λ j a b. absurd (omega arith))
pick_loop_lem (suc n) i s h = elim (List-cases (s.env_ready_queues i)) [
  | inl empty ↦ pick_skip n i s empty (pick_loop_lem n (i + 1) s (omega arith))
  | inr (x, xs, q) ↦ pick_here n i x xs s (omega arith) q
]

-- The queues when the process on the CPU has been put back into the one of its priority.
abbrev pub requeued : Sched → ℕ → List ℕ
requeued s i = elim s.proc [
  | none ↦ s.env_ready_queues i
  | some c ↦ if (s.envs c).priority == i then c ∷ s.env_ready_queues i else s.env_ready_queues i
]

-- The queues after the running process has been put back.
record Requeued (s u : Sched) : Type 0 where
  done : requeue s s.proc (current_priority s) ≡ ok u
  held : u.qlock ≡ s.qlock
  many : u.num_of_ready_queues ≡ s.num_of_ready_queues
  queues : (j : ℕ) → u.env_ready_queues j ≡ requeued s j
  idle : ((j : ℕ) → j < s.num_of_ready_queues → requeued s j ≡ []) → u ≡ s
