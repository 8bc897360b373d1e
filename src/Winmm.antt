-- ===== src/Winmm.antt =====
-- WINMM.DLL, src/uwin/target_dlls/WINMM/winmm.c.
pub mod Wave
