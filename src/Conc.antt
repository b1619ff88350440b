-- ===== src/Conc.antt =====
-- kern/conc: channels, sleep locks and semaphores of the kernel.
pub mod Channel
pub mod Sleeplock
pub mod Semaphore
pub mod Woken
pub mod Asleep
pub mod Locked
pub mod Exclusion
pub mod Held
pub mod Counted
pub mod Conserved
pub mod Examples
pub mod Orders
