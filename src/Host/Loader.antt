-- ===== src/Host/Loader.antt =====
-- The loader of PE images, src/uwin/ldr.cpp.
pub mod Runs
pub mod Relocs
pub mod Exports
pub mod Modules
pub mod Startup
pub mod Samples
mod Tests
