-- ===== src/Lib.antt =====
-- A model of uwin, a layer that runs 32-bit Windows programs, and theorems about it.
--
-- The emulated program calls DLLs that are written in C and run in the emulator beside it; these
-- DLLs reach the host through system calls. The model covers the DLLs' own logic and parts of the
-- host's; what a system call returns is an argument of the function that makes it, or comes from
-- the model of the host where there is one. A handler that calls `kpanic` stops the
-- process, the value `panic` of `Outcome`.
--
-- Ksvc      KSVC.DLL, src/uwin/target_dlls/KSVC/libc.c: the C library that the other DLLs link to.
--           Memory has the block operations on a memory of addresses, Text the string functions on
--           texts up to their terminator, Strtol the number reader with its 32-bit limits.
-- Kernel32  KERNEL32.DLL, src/uwin/target_dlls/KERNEL32/kernel32.c. Calendar has the conversions
--           between clocks and dates; its loops over years and months carry fuel, which the
--           theorems show to be enough. CriticalSection has the accesses of `EnterCriticalSection`
--           and `LeaveCriticalSection` to the shared section as steps of interleaved threads.
--           Search has `FindFirstFileA` and `FindNextFileA` with their wildcards. Waits has the
--           waits for events, over a list of what the thread sees at each wake.
--           Handles has `DuplicateHandle` and `CloseHandle` over the host's table.
-- User32    USER32.DLL, src/uwin/target_dlls/USER32/user32.c: Window has the one window, whose
--           procedure is a parameter, with its messages and the pointer; Rects the rectangles.
-- Ddraw     DDRAW.DLL, src/uwin/target_dlls/DDRAW: the surfaces, as the calls of the host that their
--           methods make. Locks has what follows for sequences of these.
-- Winmm     WINMM.DLL, src/uwin/target_dlls/WINMM/winmm.c: Wave has the two linked lists of wave
--           buffers in the program's memory, behind the lock of the build, a wait for a mutex, which
--           KERNEL32 stops the process for. The walk of `waveOutWrite` stops the process after 1000
--           buffers as in the code; the other loops take fuel, a round for each element.
-- Advapi32  ADVAPI32.DLL, src/uwin/target_dlls/ADVAPI32/advapi32.c: Registry has the values of the
--           one registry key, kept as texts in the configuration (src/uwin/cfg.cpp). What `%08x`
--           prints is a parameter.
-- Host      the emulator's own side, src/uwin, which answers the system calls. Paths (file.cpp) maps
--           the program's file names below a directory of the host, MemoryMap
--           (host/posix/memory_map.cpp) has the mappings of the emulated address space, Messages
--           (win32_mq.cpp) the message queue of a thread, as steps of its producers and its consumer,
--           Handles (handletable.cpp) the table of handles behind its mutex, and Input
--           (sdl_ui_gmq.cpp) the events of SDL as the messages that Messages publishes.
--           Loader (ldr.cpp) has PE images: Relocs the relocation table in memory, Exports the lookup
--           of functions, Modules the recursive loading of files with their imports, over the address
--           space of MemoryMap, and Startup the routines that the process is given. `load_pe_module`
--           has fuel for the depth of the imports. A relocation table has 2^32 rounds and one for each
--           of its bytes: a block has at most 2^31 entries, and the next block is at least a byte
--           further, but for a block size of 0, where the code does not move on either.
--           The files and the built-in DLLs are parameters.
--           A loop over a list takes a round for each element, which is the fuel it has.
-- Jit       the translation to the code of the host's processor, src/uwin-jit: Strings has the
--           helpers that it calls for repeated string instructions (aarch64_code_generator.cpp),
--           with the host's memmove and memset as parameters; BlockCache the cache of translated
--           blocks (basic_block_cache.cpp), 32 levels of predictions deep as in the code; ExecLock
--           the lock of src/uwin/jit_cpu_loop.cpp as steps of interleaved threads;
--           ThreadSetup the pages, the stack and the TEB of a new thread, over Host's MemoryMap.
--
-- Numbers are natural numbers; a C integer keeps its width by remainders, and signed results are
-- integers. `char` and `long` have the signs and sizes of the 32-bit target.
--
-- Not modelled: the copies of other projects (the Halfix emulator, softfloat, rpmalloc, printf), the
-- code generator of the JIT, the suspension and the end of the host's threads, its user interface, the calls that
-- only pass on to the host's files, and the DLLs MSS32, BINKW32, GDI32, IFC20, OLE32 and VERSION.
pub mod Common
pub mod Ksvc
pub mod Kernel32
pub mod Winmm
pub mod Advapi32
pub mod Host
pub mod User32
pub mod Ddraw
pub mod Jit
