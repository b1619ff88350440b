-- ===== src/Sched/State.antt =====
-- kern/cpu/sched.h, inc/environment_definitions.h, kern/conc/kspinlock.c, kern/cpu/cpu.c: the state
-- of the scheduler on one CPU, its lock, and the queue functions of kern/cpu/sched_helpers.c.
use fos_operational_system_f.Common.{
  ℕ, ◌+◌, ◌-◌, Bool, true, false, Option, none, some, List, [], ◌∷◌, ◌==◌, if◌then◌else◌, update,
  contains, erase, get_last?,
}
use fos_operational_system_f.Common.Outcome.{Outcome, ok, panic, fault}
use fos_operational_system_f.Space.{Space}

-- ENV_FREE ... ENV_UNKNOWN
pub data Status : Type 0 where
  free ready running blocked new exit killed unknown : Status

pub data Method : Type 0 where
  rr mlfq bsd prirr : Method

pub data SchedStatus : Type 0 where
  stopped started : SchedStatus

-- The fields of `struct Env` that scheduling reads or writes.
pub record Env : Type 0 where
  pub env_id : ℕ
  pub env_status : Status
  pub priority : ℕ
  pub n_ticks : ℕ
  pub n_clocks : ℕ
  pub space : Space

-- A pointer to an Env is its index in `envs`. The head of a list is LIST_FIRST.
-- `env_ready_queues i` is the i-th ready queue; the array has `num_of_ready_queues` of them.
-- `qlock` says whether this CPU holds ProcessQueues.qlock, and `ncli` is mycpu()->ncli.
-- `quantum` is quantums[0], and `clock` what kclock_set_quantum was last given.
pub record Sched : Type 0 where
  pub envs : ℕ → Env
  pub proc : Option ℕ
  pub env_new_queue : List ℕ
  pub env_exit_queue : List ℕ
  pub env_ready_queues : ℕ → List ℕ
  pub num_of_ready_queues : ℕ
  pub quantum : ℕ
  pub clock : ℕ
  pub starvation_threshold : ℕ
  pub ticks : ℕ
  pub scheduler_method : Method
  pub scheduler_status : SchedStatus
  pub lru_time : Bool
  pub qlock : Bool
  pub ncli : ℕ

abbrev pub Run : Type 0
Run = Outcome Sched Sched

abbrev pub status_eq : Status → Status → Bool
status_eq free free = true
status_eq ready ready = true
status_eq running running = true
status_eq blocked blocked = true
status_eq new new = true
status_eq exit exit = true
status_eq killed killed = true
status_eq unknown unknown = true
status_eq _ _ = false

-- acquire_kspinlock and release_kspinlock at the queue lock: panics on a lock that this CPU holds
-- already, or does not hold; interrupts are off while `ncli` is not 0.
unfoldable pub acquire : Sched → Run
acquire s = if s.qlock then panic else ok (record s { qlock = true; ncli = s.ncli + 1 })

unfoldable pub release : Sched → Run
release s = if s.qlock then ok (record s { qlock = false; ncli = s.ncli - 1 }) else panic

-- The functions on `struct Env_Queue`.
unfoldable pub enqueue : List ℕ → ℕ → List ℕ
enqueue q e = e ∷ q

unfoldable pub drop_last : List ℕ → List ℕ
drop_last [] = []
drop_last (x ∷ []) = []
drop_last (x ∷ y ∷ xs) = x ∷ drop_last (y ∷ xs)

unfoldable pub dequeue : List ℕ → Option ℕ × List ℕ
unfolding get_last? drop_last
dequeue q = (get_last? q, drop_last q)

-- LIST_REMOVE; to unlink what is on another list corrupts both.
unfoldable pub remove_from_queue : List ℕ → ℕ → Outcome Sched (List ℕ)
unfolding contains erase
remove_from_queue q e = if contains e q then ok (erase e q) else fault

unfoldable pub find_env_in_queue : (ℕ → Env) → List ℕ → ℕ → Option ℕ
find_env_in_queue envs [] id = none
find_env_in_queue envs (e ∷ q) id =
    if (envs e).env_id == id then some e else find_env_in_queue envs q id

abbrev pub set_env : Sched → ℕ → Env → Sched
set_env s e v = record s { envs = update s.envs e v }

abbrev pub set_status : Sched → ℕ → Status → Sched
set_status s e st = set_env s e (record (s.envs e) { env_status = st })

abbrev pub set_priority : Sched → ℕ → ℕ → Sched
set_priority s e p = set_env s e (record (s.envs e) { priority = p })

abbrev pub set_ticks : Sched → ℕ → ℕ → Sched
set_ticks s e n = set_env s e (record (s.envs e) { n_ticks = n })

abbrev pub set_ready : Sched → ℕ → List ℕ → Sched
set_ready s i q = record s { env_ready_queues = update s.env_ready_queues i q }
