-- ===== src/User32.antt =====
-- USER32.DLL, src/uwin/target_dlls/USER32/user32.c.
pub mod Rects
pub mod Window
