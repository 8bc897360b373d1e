-- ===== src/Ksvc.antt =====
-- KSVC.DLL: the part of the C library that it carries, src/uwin/target_dlls/KSVC/libc.c.
pub mod Memory
pub mod Text
pub mod Strtol
