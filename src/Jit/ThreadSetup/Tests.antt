-- ===== src/Jit/ThreadSetup/Tests.antt =====
-- A thread of src/uwin/jit_cpu_loop.cpp.
use uwin_old.Common.{◌+◌, ◌*◌, ◌≡◌, refl, arith, Outcome, done, panic}
use uwin_old.Common.Bytes.{Memory, load}
use uwin_old.Host.MemoryMap.{Space, prot_n, map_dynamic}
use uwin_old.Jit.ThreadSetup.{ThreadParams, NewThread, setup_thread, setup_stack}
use uwin_old.Jit.ThreadSetup.Guards.{IsGuarded}
use uwin_old.Jit.ThreadSetup.Start.{setup_thread-IsGuarded, setup_thread-stack_limits}

abbrev params : ThreadParams
params = record {
  entry_point = 0x401000;
  entry_param = 7;
  stack_size = 0x100000;
  thread_id = 1;
  process_id = 2;
  library_init_list = 0x900000;
  command_line = 0x901000;
  init_entry = 0x700000;
}

abbrev space : Space
space = record { map_base = 0x2000000; prot = λ a. prot_n }

abbrev zeros : Memory
zeros a = 0

abbrev no_thread : NewThread
no_thread = record {
  gdt_base = 0;
  teb_base = 0;
  tls_base = 0;
  stack_top = 0;
  eax = 0;
  ebx = 0;
  esp = 0;
  eip = 0;
  space = space;
  memory = zeros;
}

abbrev the_thread : Outcome NewThread → NewThread
the_thread (done t) = t
the_thread panic = no_thread

abbrev thread : NewThread
thread = the_thread (setup_thread 0x1000 params space zeros)

is_set_up : setup_thread 0x1000 params space zeros ≡ done thread
unfolding setup_thread setup_stack map_dynamic
is_set_up = refl

setup_thread-IsGuarded_example :
    (thread.esp ≡ thread.stack_top + 0x100000)
    × IsGuarded 0x1000 thread.stack_top 0x100000 thread.space.prot
setup_thread-IsGuarded_example =
    setup_thread-IsGuarded 0x1000 params space zeros thread (omega arith) (omega arith)
      (omega arith) is_set_up

setup_thread-stack_limits_example :
    (thread.stack_top ≡ 0x2004000)
    × ((load 4 (thread.teb_base + 4 * 1) thread.memory ≡ 0x100000)
        × (load 4 (thread.teb_base + 4 * 2) thread.memory ≡ 0))
setup_thread-stack_limits_example =
    setup_thread-stack_limits 0x1000 params space zeros thread (omega arith) (omega arith)
      (omega arith) is_set_up
