-- ===== src/Advapi32.antt =====
-- ADVAPI32.DLL, src/uwin/target_dlls/ADVAPI32/advapi32.c.
pub mod Registry
