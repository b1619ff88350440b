-- ===== src/Fault.antt =====
-- kern/trap/fault_handler.c: page replacement.
pub mod Optimal
pub mod Victim
pub mod Clock
pub mod Process
pub mod PageIn
pub mod Replace
pub mod Steady
pub mod Sized
pub mod Depth
pub mod Release
pub mod Apart
pub mod Released
pub mod Handler
pub mod Refused
pub mod Faults
pub mod Examples
