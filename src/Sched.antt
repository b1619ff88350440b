-- ===== src/Sched.antt =====
-- kern/cpu/sched.c, kern/cpu/sched_helpers.c and the process switch of kern/proc/user_environment.c.
pub mod State
pub mod Queues
pub mod Select
pub mod Clock
pub mod Life
pub mod Pick
pub mod Promotion
pub mod Starvation
pub mod Exiting
pub mod Setup
pub mod Nesting
pub mod Examples
