-- ===== src/Host.antt =====
-- The host's side of uwin, src/uwin/*.cpp: what the system calls do outside the emulated process.
pub mod Handles
pub mod Paths
pub mod Input
pub mod Loader
pub mod MemoryMap
pub mod Messages
