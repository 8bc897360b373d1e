-- ===== src/Host/Loader/Tests.antt =====
-- A process of three small files, and two that import each other, for src/uwin/ldr.cpp.
use uwin_old.Common.{◌^◌, ◌<◌, ◌≤◌}
use uwin_old.Common.{ℕ, ◌+◌}
use uwin_old.Common.{◌≡◌, refl}
use uwin_old.Common.{true, none, some, List, ◌∷◌}
use uwin_old.Ksvc.Text.{Text}
use uwin_old.Common.Bytes.{load, store_word}
use uwin_old.Host.MemoryMap.{map_fixed, map_dynamic, set_memprotect}
use uwin_old.Host.Loader.Runs.{ended}
use uwin_old.Host.Loader.Exports.{Module, find_function_by_ordinal}
use uwin_old.Host.Loader.Modules.{Platform, find_module, last_slash, module_key}
use uwin_old.Host.Loader.Modules.Images.{
  place_image, reserve, load_sections, write_bytes, relocate, protect_sections,
}
use uwin_old.Host.Loader.Modules.Load.{
  resolve_symbol, link_symbols, link_imports, load_pe, load_new, load_pe_module,
}
use uwin_old.Host.Loader.Modules.Order.{IsOrdered, load_pe_module-IsOrdered}
use uwin_old.Common.{Bool}
use uwin_old.Common.{◌≢◌}
use uwin_old.Host.Loader.Modules.Load.{file_of}
use uwin_old.Host.Loader.Modules.Order.{ModuleTable}
use uwin_old.Host.Loader.Modules.Lookup.{load_pe_module-once}
use uwin_old.Host.Loader.Modules.Load.{imports_of}
use uwin_old.Host.Loader.Modules.Order.{ModuleTable}
use uwin_old.Host.Loader.Modules.Depth.{}
use uwin_old.Host.Loader.Modules.Cycles.{IsCyclic, imports_some, load_pe_module-never_ended}
use uwin_old.Host.Loader.Startup.{Process, init_dll, put_process, prepare, write_routines}
use mathlib.Core.Path.{ap}
use uwin_old.Common.{arith}
use mathlib.Core.Path.{sym}
use uwin_old.Host.Loader.Startup.Routines.{prepare-IsOrdered}
use uwin_old.Host.Loader.Startup.Listed.{IsListed, list_size}
use uwin_old.Host.Loader.Samples.{
  library, a_exe, imported, platform, start, the_result, no_module, loaded, ends, some_file,
}

load_pe_module-IsOrdered_example :
    IsOrdered platform loaded.1.module_table loaded.1.library_init_routines
load_pe_module-IsOrdered_example =
    load_pe_module-IsOrdered platform 5 a_exe start loaded.1 loaded.0 ends refl

-- The same file under a directory.
abbrev far_exe : Text
far_exe = b'd' ∷ b'/' ∷ a_exe

far_key : module_key platform far_exe ≡ module_key platform a_exe
unfolding module_key last_slash
far_key = refl

load_pe_module-once_example : load_pe_module platform 3 far_exe loaded.1 ≡ ended loaded
load_pe_module-once_example =
    load_pe_module-once platform 5 2 a_exe far_exe start loaded.1 loaded.0 ends far_key

-- "a.exe" imports itself, and so does every library.
abbrev cycle : Platform
cycle = record platform { read_file = λ name. some (record library { imports = imported name }) }

everything : Text → Bool
everything name = true

cycle-IsCyclic : IsCyclic cycle everything
unfolding some_file everything
cycle-IsCyclic name f in_set there =
    let same = ap (λ o. imports_some cycle everything (imports_of (some_file library o))) there in
    sym same

load_pe_module-never_ended_example : load_pe_module cycle 9 a_exe start ≢ ended (no_module, start)
unfolding find_module everything
load_pe_module-never_ended_example =
    load_pe_module-never_ended cycle everything 9 a_exe start start no_module cycle-IsCyclic
      (λ name in_set. refl) refl

-- The process that is started.
abbrev no_process : Process
no_process = record {
  hmodule = 0;
  library_init_list = 0;
  command_line = 0;
  init_entry = 0;
  loader = start;
}

abbrev started : Process
started = the_result no_process (prepare platform 5 a_exe start)

starts : prepare platform 5 a_exe start ≡ ended started
unfolding prepare put_process write_routines load_pe_module load_new load_pe link_imports
    link_symbols resolve_symbol find_function_by_ordinal place_image reserve load_sections
    write_bytes relocate protect_sections map_fixed map_dynamic set_memprotect load store_word
    find_module last_slash module_key
starts = refl

no_init_dll : find_module (module_key platform init_dll) loaded.1.module_table ≡ none
unfolding load_pe_module load_new load_pe link_imports link_symbols resolve_symbol
    find_function_by_ordinal place_image reserve load_sections write_bytes relocate protect_sections
    map_fixed map_dynamic set_memprotect load store_word find_module last_slash module_key
no_init_dll = refl

init_file : file_of platform (module_key platform init_dll) ≡ some library
unfolding last_slash module_key
init_file = refl

list_place : started.library_init_list ≤ 0x80000000
unfolding prepare put_process write_routines load_pe_module load_new load_pe link_imports
    link_symbols resolve_symbol find_function_by_ordinal place_image reserve load_sections
    write_bytes relocate protect_sections map_fixed map_dynamic set_memprotect load store_word
    find_module last_slash module_key
list_place = omega arith

list_room : list_size started.loader.library_init_routines + 0x1000 < 2 ^ 31
unfolding prepare put_process write_routines load_pe_module load_new load_pe link_imports
    link_symbols resolve_symbol find_function_by_ordinal place_image reserve load_sections
    write_bytes relocate protect_sections map_fixed map_dynamic set_memprotect load store_word
    find_module last_slash module_key
list_room = omega arith

prepare-IsOrdered_example :
    (init : Module) × (t : ModuleTable) × (rs : List (ℕ × ℕ)) × ((started.loader.module_table
        ≡ (module_key platform init_dll, init) ∷ t)
      × IsListed started.loader.memory started.library_init_list rs
      × IsOrdered platform t rs)
prepare-IsOrdered_example =
    prepare-IsOrdered platform 5 a_exe start loaded.1 loaded.0 library started refl ends no_init_dll
      init_file refl starts (omega arith) list_place list_room
