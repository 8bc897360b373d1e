-- ===== src/Host/Loader/Startup.antt =====
-- The start of the process, `ldr_load_executable_and_prepare_initial_thread` of src/uwin/ldr.cpp, without the
-- thread that it makes at the end.
pub mod Listed
pub mod Routines
use uwin_old.Common.{ℕ, zero, suc, ◌+◌, ◌-◌, ◌*◌, ◌/◌, ◌%◌, ◌^◌, ◌≤◌, ◌<◌, bit_and, bit_or}
use uwin_old.Common.{◌≡◌, refl, sym, ap, ap₂, ◌∙◌, fun_ext, ◌≢◌, ◌↔◌, ◌⊎◌, inl, inr, arith}
use uwin_old.Common.{
  Bool, true, false, not, ◌&&◌, ◌||◌, Option, none, some, List, [], ◌∷◌, ◌++◌, map,
}
use uwin_old.Common.{
  ltb, leb, ◌==◌, if◌then◌else◌, Bool-cases, Option-cases, length, get_elem?, set,
}
use uwin_old.Common.{
  get_or, take, drop, replicate, length-append, length-set, get_elem?-set_self, get_elem?-set_ne,
}
use uwin_old.Common.{
  Outcome, done, panic, ◌>>=◌, ◌>>◌, require, u8, u16, u32, u64, sub32, sub64, signed32,
}
use uwin_old.Common.Int.{ℤ, pos, negsuc, pos_part, neg_part, sub_ℕ, ◌+ℤ◌, ◌-ℤ◌, ◌*ℤ◌, ◌≤ℤ◌, ltb_ℤ}
use uwin_old.Ksvc.Text.{Text}
use uwin_old.Common.Bytes.{Memory, store_word}
use uwin_old.Host.MemoryMap.{Space, prot_rw, map_dynamic}
use uwin_old.Host.Loader.Runs.{Run, ended, ◌>>>◌, run}
use uwin_old.Host.Loader.Exports.{Module}
use uwin_old.Host.Loader.Modules.{Platform, Loader}
use uwin_old.Host.Loader.Modules.Images.{align_up, write_bytes}
use uwin_old.Host.Loader.Modules.Load.{load_pe_module}

-- `library_init_routines.erase(library_init_routines.end() - 1)`
abbrev pub erase_last : List (ℕ × ℕ) → List (ℕ × ℕ)
erase_last [] = []
erase_last (r ∷ []) = []
erase_last (r ∷ s ∷ rest) = r ∷ erase_last (s ∷ rest)

-- The routines at an address, with the pair of zeros behind them.
unfoldable pub write_routines : ℕ → List (ℕ × ℕ) → Memory → Memory
write_routines a [] m = store_word 4 (a + 4) 0 (store_word 4 a 0 m)
write_routines a (r ∷ rest) m =
    write_routines (a + 8) rest (store_word 4 (a + 4) r.1 (store_word 4 a r.0 m))

-- The fields of `uw_target_process_data_t` that are set here, and the loader then.
pub record Process : Type 0 where
  pub hmodule : ℕ
  pub library_init_list : ℕ
  pub command_line : ℕ
  pub init_entry : ℕ
  pub loader : Loader

-- "init.dll"
abbrev pub init_dll : Text
init_dll = b'i' ∷ b'n' ∷ b'i' ∷ b't' ∷ b'.' ∷ b'd' ∷ b'l' ∷ b'l' ∷ []

-- The process data, with the memory mapped for the routines and for the command line.
abbrev pub process_of : Text → Module → Module → Loader → ℕ × Space → ℕ × Space → Process
process_of exec_name exec init l list line = record {
  hmodule = exec.image_base;
  library_init_list = list.0;
  command_line = line.0;
  init_entry = init.entry_point;
  loader = record l {
    space = line.1;
    memory =
        write_bytes line.0 (exec_name ++ (0 ∷ []))
          (write_routines list.0 (erase_last l.library_init_routines) l.memory);
  };
}

-- The sizes of the two mappings, before they are aligned.
abbrev pub routines_size : Loader → ℕ
routines_size l = (length (erase_last l.library_init_routines) + 1) * 8

abbrev pub line_size : Text → ℕ
line_size exec_name = length exec_name + 1

-- The part behind the loading: `exec` and `init` are the two modules.
unfoldable pub put_process : Platform → Text → Module → Module → Loader → Run Process
put_process host exec_name exec init l =
    run (map_dynamic host.page_size l.space (align_up (routines_size l) host.page_size) prot_rw)
    >>> (λ list.
        run (
          map_dynamic host.page_size list.1 (align_up (line_size exec_name) host.page_size) prot_rw)
        >>> (λ line.
            run (require (not (init.entry_point == 0)))
            >>> (λ checked. ended (process_of exec_name exec init l list line))))

-- `ldr_load_executable_and_prepare_initial_thread`
unfoldable pub prepare : Platform → ℕ → Text → Loader → Run Process
prepare host fuel exec_name l = load_pe_module host fuel exec_name l >>> (λ exec.
    load_pe_module host fuel init_dll exec.1
    >>> (λ init. put_process host exec_name exec.0 init.0 init.1))
