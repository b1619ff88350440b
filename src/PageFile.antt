-- ===== src/PageFile.antt =====
-- kern/disk/pagefile_manager.c: the page file, where the pages of the processes are kept on disk.
pub mod State
pub mod Pages
pub mod Tables
pub mod Partition
pub mod Valid
pub mod Kept
pub mod Freed
pub mod Emptied
pub mod Calls
pub mod Invariant
pub mod Placed
pub mod Contents
pub mod ReadBack
pub mod Devices
pub mod Examples
