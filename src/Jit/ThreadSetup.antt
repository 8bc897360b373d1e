-- ===== src/Jit/ThreadSetup.antt =====
-- The memory of a new thread, `uw_cpu_setup_thread` of src/uwin/jit_cpu_loop.cpp, over the mappings of
-- src/uwin/host/posix/memory_map.cpp.
pub mod Guards
pub mod Teb
pub mod Start
mod Tests
use uwin_old.Common.{ℕ, zero, suc, ◌+◌, ◌-◌, ◌*◌, ◌/◌, ◌%◌, ◌^◌, ◌≤◌, ◌<◌, bit_and, bit_or}
use uwin_old.Common.{◌≡◌, refl, sym, ap, ap₂, ◌∙◌, fun_ext, ◌≢◌, ◌↔◌, ◌⊎◌, inl, inr, arith}
use uwin_old.Common.{
  Bool, true, false, not, ◌&&◌, ◌||◌, Option, none, some, List, [], ◌∷◌, ◌++◌, map,
}
use uwin_old.Common.{
  ltb, leb, ◌==◌, if◌then◌else◌, Bool-cases, Option-cases, length, get_elem?, set,
}
use uwin_old.Common.{
  get_or, take, drop, replicate, length-append, length-set, get_elem?-set_self, get_elem?-set_ne,
}
use uwin_old.Common.{
  Outcome, done, panic, ◌>>=◌, ◌>>◌, require, u8, u16, u32, u64, sub32, sub64, signed32,
}
use uwin_old.Common.Int.{ℤ, pos, negsuc, pos_part, neg_part, sub_ℕ, ◌+ℤ◌, ◌-ℤ◌, ◌*ℤ◌, ◌≤ℤ◌, ltb_ℤ}
use uwin_old.Common.Bytes.{Memory, store_word}
use uwin_old.Host.MemoryMap.{Space, prot_rw, prot_n, map_dynamic}

-- What the set-up reads of `uw_target_thread_data_t` and its process.
pub record ThreadParams : Type 0 where
  pub entry_point : ℕ
  pub entry_param : ℕ
  pub stack_size : ℕ
  pub thread_id : ℕ
  pub process_id : ℕ
  pub library_init_list : ℕ
  pub command_line : ℕ
  pub init_entry : ℕ

-- The addresses that the set-up writes to it, the registers of the thread, and what it leaves behind.
pub record NewThread : Type 0 where
  pub gdt_base : ℕ
  pub teb_base : ℕ
  pub tls_base : ℕ
  pub stack_top : ℕ
  pub eax : ℕ
  pub ebx : ℕ
  pub esp : ℕ
  pub eip : ℕ
  pub space : Space
  pub memory : Memory

-- `teb[index] = value;`
abbrev pub set_teb : ℕ → ℕ → ℕ → Memory → Memory
set_teb teb index value m = store_word 4 (teb + 4 * index) value m

-- The stores of `setup_teb`; `stack_top` is what the thread's data has for it then.
pub write_teb : ThreadParams → ℕ → ℕ → Memory → Memory
write_teb p stack_top teb m = set_teb teb 0xd 0 (
    set_teb teb 0xa p.command_line (
      set_teb teb 0x9 p.thread_id (
        set_teb teb 0x8 p.process_id (
          set_teb teb 0x7 p.library_init_list (
            set_teb teb 0x6 teb (
              set_teb teb 0x2 stack_top (
                set_teb teb 0x1 (u32 (stack_top + p.stack_size))
                  (set_teb teb 0x0 0xffffffff m))))))))

-- `setup_stack`: the stack between two pages that are reserved only.
pub setup_stack : ℕ → ThreadParams → Space → Outcome (ℕ × Space)
setup_stack page p s = map_dynamic page s page prot_n >>= (λ below.
    map_dynamic page below.1 p.stack_size prot_rw
    >>= (λ stack. map_dynamic page stack.1 page prot_n >>= (λ above. done (stack.0, above.1))))

-- `uw_cpu_setup_thread`, for a thread whose `stack_top` is 0 until `setup_stack` sets it
-- (`host_thread_entry` of src/uwin/thread.cpp).
pub setup_thread : ℕ → ThreadParams → Space → Memory → Outcome NewThread
setup_thread page p s m = map_dynamic page s page prot_rw >>= (λ gdt.
    map_dynamic page gdt.1 page prot_rw >>= (λ teb. map_dynamic page teb.1 page prot_rw >>= (λ tls.
      setup_stack page p tls.1 >>= (λ stack. done (record {
        gdt_base = gdt.0;
        teb_base = teb.0;
        tls_base = tls.0;
        stack_top = stack.0;
        eax = p.entry_point;
        ebx = p.entry_param;
        esp = u32 (stack.0 + p.stack_size);
        eip = p.init_entry;
        space = stack.1;
        memory = write_teb p 0 teb.0 m;
      })))))
