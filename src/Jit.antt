-- ===== src/Jit.antt =====
-- The translation to code of the host's processor, src/uwin-jit and src/uwin/jit_cpu_loop.cpp.
pub mod Strings
pub mod ExecLock
pub mod BlockCache
pub mod ThreadSetup
