-- ===== src/Kernel32.antt =====
-- KERNEL32.DLL, src/uwin/target_dlls/KERNEL32/kernel32.c.
pub mod Handles
pub mod Calendar
pub mod CriticalSection
pub mod Search
pub mod Waits
