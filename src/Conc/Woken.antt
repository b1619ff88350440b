-- ===== src/Conc/Woken.antt =====
-- kern/conc/channel.c: wakeup_all makes every process of the channel ready, in their order.
use fos_operational_system_f.Common.{
  ℕ, zero, suc, ◌+◌, ◌-◌, ◌<◌, ◌≡◌, refl, ap, sym, subst, ◌∙◌, true, false, some, List, [], ◌∷◌,
  arith, ◌==◌, length, List-cases, ◌++◌, inl, inr, if◌then◌else◌, contains, get_last?,
}
use native.Mathlib.Decide.{ℕ_discrete}
use fos_operational_system_f.Common.Outcome.{panic, ok}
use fos_operational_system_f.Sched.State.{
  Sched, Env, ready, acquire, release, enqueue, dequeue, drop_last, set_env, set_ready,
}
use fos_operational_system_f.Sched.Queues.{sched_insert_ready}
use fos_operational_system_f.Sched.Setup.{queue_size}
use fos_operational_system_f.Conc.Channel.{Channel, wakeup, wakeup_loop, wakeup_all}

-- What sched_insert_ready leaves of a process with a queue.
abbrev pub inserted : ℕ → Sched → Sched
inserted e s =
    let p = (s.envs e).priority in
    set_ready (set_env s e (record (s.envs e) { n_ticks = 0; env_status = ready })) p
      (e ∷ s.env_ready_queues p)

-- The processes of a channel are made ready from the last to the first.
unfoldable pub woken : List ℕ → Sched → Sched
woken [] s = s
woken (e ∷ l) s = inserted e (woken l s)

-- The processes of the list whose priority is `i`.
unfoldable pub of_priority : ℕ → (ℕ → Env) → List ℕ → List ℕ
of_priority i envs [] = []
of_priority i envs (e ∷ l) =
    if (envs e).priority == i then e ∷ of_priority i envs l else of_priority i envs l

-- Each process of the list has a ready queue.
pub record HaveQueues (l : List ℕ) (s : Sched) : Type 0 where
  pub queues : (e : ℕ) → contains e l ≡ true → (s.envs e).priority < s.num_of_ready_queues

insert_lem :
    (s : Sched) (e : ℕ)
    → s.qlock ≡ true
    → (s.envs e).priority < s.num_of_ready_queues
    → sched_insert_ready s e ≡ ok (inserted e s)
unfolding sched_insert_ready enqueue
insert_lem s e q lt = ground (arith, q, lt)

priority_inserted : (s : Sched) (e g : ℕ) → ((inserted e s).envs g).priority ≡ (s.envs g).priority
priority_inserted s e g = ground arith

woken_last :
    (e : ℕ) (l : List ℕ) (z : ℕ) (s : Sched)
    → get_last? (e ∷ l) ≡ some z
    → woken (e ∷ l) s ≡ woken (drop_last (e ∷ l)) (inserted z s)
unfolding woken get_last? drop_last
woken_last e [] z s q = ap (λ x. inserted x s) (ground (arith, q))
woken_last e (f ∷ l) z s q = ap (inserted e) (woken_last f l z s q)

dequeue_both : (l : List ℕ) → dequeue l ≡ (get_last? l, drop_last l)
unfolding dequeue get_last? drop_last
dequeue_both l = refl

-- One process that wakes up, of a channel that is not empty.
wakeup_last :
    (c : Channel) (z : ℕ)
    → c.scheduler.qlock ≡ true
    → get_last? c.queue ≡ some z
    → (c.scheduler.envs z).priority < c.scheduler.num_of_ready_queues
    → wakeup c ≡ ok (record c { queue = drop_last c.queue; scheduler = inserted z c.scheduler })
unfolding wakeup
wakeup_last c z q last lt =
    rw (dequeue_both c.queue, last, insert_lem c.scheduler z q lt, wakeup)
      (ap (λ r. ok (record c { queue = r.1; scheduler = inserted z c.scheduler }))
        (dequeue_both c.queue))

last_in :
    (e : ℕ) (l : List ℕ) → (z : ℕ) × (get_last? (e ∷ l) ≡ some z) × (contains z (e ∷ l) ≡ true)
unfolding get_last? contains
last_in e [] = (e, refl, ground arith)
last_in e (f ∷ l) = let (z, q, c) = last_in f l in (z, q, ground (arith, c))

drop_last_in :
    (e : ℕ) (l : List ℕ) (g : ℕ) → contains g (drop_last (e ∷ l)) ≡ true → contains g (e ∷ l) ≡ true
unfolding drop_last contains
drop_last_in e [] g h = absurd (ground (arith, h))
drop_last_in e (f ∷ l) g h = ground (arith, h, drop_last_in f l g)

length-drop_last : (e : ℕ) (l : List ℕ) → length (drop_last (e ∷ l)) ≡ length l
unfolding drop_last
length-drop_last e [] = refl
length-drop_last e (f ∷ l) = ground (arith, length-drop_last f l)

wakeup_loop_lem :
    (n : ℕ) (c : Channel)
    → length c.queue ≡ n
    → c.scheduler.qlock ≡ true
    → HaveQueues c.queue c.scheduler
    → wakeup_loop n c ≡ ok (record c { queue = []; scheduler = woken c.queue c.scheduler })
unfolding wakeup_loop woken
wakeup_loop_lem zero c e q h = elim (List-cases c.queue) [
  | inl z ↦
      ap (λ x. ok (record c { queue = x; scheduler = c.scheduler })) z
      ∙ ap (λ x. ok (record c { queue = []; scheduler = woken x c.scheduler })) (sym z)
  | inr (f, l, z) ↦ absurd (ground (arith, z, e))
]
wakeup_loop_lem (suc n) c e q h = elim (List-cases c.queue) [
  | inl z ↦ absurd (ground (arith, z, e))
  | inr (f, l, z) ↦
      let (g, last, there) = last_in f l in
      let d : Channel = record c {
        queue = drop_last c.queue;
        scheduler = inserted g c.scheduler;
      } in
      let step : wakeup c ≡ ok d =
        wakeup_last c g q (ap get_last? z ∙ last) (h.queues g (ap (contains g) z ∙ there)) in
      let shorter : length (drop_last c.queue) ≡ n =
        ap (λ x. length (drop_last x)) z ∙ length-drop_last f l ∙ ground (arith, z, e) in
      let has : HaveQueues (drop_last c.queue) (inserted g c.scheduler) = record {
        queues = λ x there.
            subst (λ y. y < c.scheduler.num_of_ready_queues)
              (sym (priority_inserted c.scheduler g x))
              (h.queues x (
                ap (contains x) z
                ∙ drop_last_in f l x (ap (λ y. contains x (drop_last y)) (sym z) ∙ there)));
      } in
      let same : woken (drop_last c.queue) (inserted g c.scheduler) ≡ woken c.queue c.scheduler =
        ap (λ x. woken (drop_last x) (inserted g c.scheduler)) z
        ∙ sym (woken_last f l g c.scheduler last)
        ∙ ap (λ x. woken x c.scheduler) (sym z) in
      rw (step) (
        wakeup_loop_lem n d shorter q has
        ∙ ap (λ s. ok (record c { queue = []; scheduler = s })) same)
]

-- What waking leaves alone.
woken_rest :
    (l : List ℕ) (s : Sched)
    → ((woken l s).qlock ≡ s.qlock)
      × ((woken l s).ncli ≡ s.ncli)
      × ((woken l s).proc ≡ s.proc)
      × ((e : ℕ) → ((woken l s).envs e).priority ≡ (s.envs e).priority)
unfolding woken
woken_rest [] s = (refl, refl, refl, λ e. refl)
woken_rest (f ∷ l) s =
    let r = woken_rest l s in (r.0, r.1, r.2, λ e. priority_inserted (woken l s) f e ∙ r.3 e)

woken_queues :
    (i : ℕ) (l : List ℕ) (s : Sched)
    → (woken l s).env_ready_queues i ≡ of_priority i s.envs l ++ s.env_ready_queues i
unfolding woken of_priority
woken_queues i [] s = refl
woken_queues i (f ∷ l) s =
    let r = woken_queues i l s in
    let p = (woken_rest l s).3 f in
    elim (ℕ_discrete (s.envs f).priority i) [
      | yes e ↦ ground (arith, r, p, e, ap (woken l s).env_ready_queues (p ∙ e))
      | no ne ↦ ground (arith, r, p, ne)
    ]

woken_ready :
    (e : ℕ) (l : List ℕ) (s : Sched) → contains e l ≡ true → ((woken l s).envs e).env_status ≡ ready
unfolding woken contains
woken_ready e [] s h = absurd (ground (arith, h))
woken_ready e (f ∷ l) s h = elim (ℕ_discrete f e) [
  | yes q ↦ ground (arith, q)
  | no ne ↦ ground (arith, ne, woken_ready e l s (ground (arith, ne, h)))
]

-- With the kspinlock of the queues free, wakeup_all returns, provided that each process of the
-- channel has a ready queue. It empties the channel and leaves the lock and the interrupts as
-- they were. Each ready queue then has in front the processes of the channel with its priority, in
-- the order of the channel, and each process of the channel is READY. With the kspinlock held, as
-- the comment on wakeup_all asks for, it panics.
pub wakeup_all_lem :
    (c : Channel)
    → c.scheduler.qlock ≡ false
    → HaveQueues c.queue c.scheduler
    → (d : Channel) × (wakeup_all c ≡ ok d)
      × (d.queue ≡ [])
      × (d.lk ≡ c.lk)
      × (d.scheduler.qlock ≡ false)
      × (d.scheduler.ncli ≡ c.scheduler.ncli)
      × (d.scheduler.proc ≡ c.scheduler.proc)
      × ((i : ℕ)
          → d.scheduler.env_ready_queues i
            ≡ of_priority i c.scheduler.envs c.queue ++ c.scheduler.env_ready_queues i)
      × ((e : ℕ) → contains e c.queue ≡ true → (d.scheduler.envs e).env_status ≡ ready)
      × (wakeup_all (record c { scheduler = record c.scheduler { qlock = true } }) ≡ panic)
unfolding wakeup_all acquire release queue_size
wakeup_all_lem c q h =
    let s : Sched = record c.scheduler { qlock = true; ncli = c.scheduler.ncli + 1 } in
    let loop =
      wakeup_loop_lem (length c.queue) (record c { scheduler = s }) refl refl
        (record { queues = h.queues }) in
    let r = woken_rest c.queue s in
    let t : Sched = record (woken c.queue s) { qlock = false; ncli = (woken c.queue s).ncli - 1 } in
    (
      record c { queue = []; scheduler = t },
      rw (q, loop, r.0) refl,
      refl,
      refl,
      refl,
      omega (arith, r.1),
      r.2,
      λ i. woken_queues i c.queue s,
      λ e there. woken_ready e c.queue s there,
      refl,
    )
