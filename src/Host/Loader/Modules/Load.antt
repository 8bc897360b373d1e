-- ===== src/Host/Loader/Modules/Load.antt =====
-- The recursive loading of modules, `load_pe` and `load_pe_module` of src/uwin/ldr.cpp, and the functions
-- that look modules up.
use uwin_old.Common.{ℕ, zero, suc, ◌+◌}
use uwin_old.Common.{not, ◌&&◌, Option, none, some, List, [], ◌∷◌, ◌++◌, map}
use uwin_old.Common.{ltb, ◌==◌, if◌then◌else◌}
use uwin_old.Common.{Outcome, done, panic, ◌>>=◌, ◌>>◌, require, u32}
use uwin_old.Ksvc.Text.{Text}
use uwin_old.Common.Bytes.{Memory, store_word}
use uwin_old.Host.Loader.Runs.{Run, ended, aborted, unfinished, ◌>>>◌, run}
use uwin_old.Host.Loader.Exports.{Module, find_function_by_ordinal, find_function_by_name}
use uwin_old.Host.Loader.Modules.{
  Symbol, by_ordinal, by_name, Imported, PeFile, Platform, Loader, find_module, find_hinstance,
  module_key,
}
use uwin_old.Host.Loader.Modules.Images.{place_image, protect_sections}

-- The value of a thunk: the address that a symbol of a loaded module has.
unfoldable pub resolve_symbol : Platform → Module → Symbol → Memory → Outcome ℕ
resolve_symbol host dep (by_ordinal ordinal) m = find_function_by_ordinal dep ordinal m
resolve_symbol host dep (by_name name) m = find_function_by_name (host.strcmp_zero name m) dep m

-- `while (*pilt != 0)`
unfoldable pub link_symbols : Platform → Module → ℕ → List Symbol → Memory → Outcome Memory
link_symbols host dep thunk [] m = done m
link_symbols host dep thunk (symbol ∷ symbols) m = resolve_symbol host dep symbol m >>= (λ value.
    require (not (value == 0))
    >> link_symbols host dep (thunk + 4) symbols (store_word 4 thunk value m))

abbrev pub LoadModule : Type 0
LoadModule = Text → Loader → Run (Module × Loader)

-- `while (pimp->dwLookupTableRVA)`, with what `load_pe_module` does
unfoldable pub link_imports : Platform → LoadModule → ℕ → List Imported → Loader → Run Loader
link_imports host load_module image_base [] l = ended l
link_imports host load_module image_base (i ∷ imports) l = load_module i.module_name l >>> (λ dep.
    run (link_symbols host dep.0 (u32 (image_base + i.thunk_table_rva)) i.symbols dep.1.memory)
    >>> (λ m. link_imports host load_module image_base imports (record dep.1 { memory = m })))

-- The `module` that `load_pe` fills.
abbrev pub module_of : Text → PeFile → ℕ → Module
module_of name f image_base = record {
  name = name;
  image_base = image_base;
  entry_point =
      if f.address_of_entry_point == 0 then 0 else u32 (image_base + f.address_of_entry_point);
  export_directory = if ltb 0 f.number_of_rva_and_sizes then u32 (image_base + f.export_rva) else 0;
  export_directory_size = if ltb 0 f.number_of_rva_and_sizes then f.export_size else 0;
  stack_size = f.size_of_stack_reserve;
  code_base = u32 (image_base + f.base_of_code);
}

-- The imports that `load_pe` looks at.
abbrev pub imports_of : PeFile → List Imported
imports_of f = if ltb 1 f.number_of_rva_and_sizes then f.imports else []

-- `if (dll && mod.entry_point != 0) library_init_routines.emplace_back(mod);`
abbrev pub init_routine : PeFile → Module → List (ℕ × ℕ)
init_routine f pe =
    if f.is_dll && not (pe.entry_point == 0) then (pe.image_base, pe.entry_point) ∷ [] else []

-- `load_pe`
unfoldable pub load_pe : Platform → LoadModule → Text → PeFile → Loader → Run (Module × Loader)
load_pe host load_module name f l = place_image host.page_size f l.space l.memory >>> (λ placed.
    let pe = module_of name f placed.0 in
    link_imports host load_module placed.0 (imports_of f)
      (record l { space = placed.1.0; memory = placed.1.1 })
    >>> (λ linked. run (protect_sections host.page_size placed.0 f.sections linked.space) >>> (λ s.
        ended (
          pe,
          record linked {
            space = s;
            library_init_routines = linked.library_init_routines ++ init_routine f pe;
          },
        ))))

-- Where the bytes of a module come from: a built-in DLL before a file.
abbrev pub file_of : Platform → Text → Option PeFile
file_of host name = elim (host.ldr_override name) [ some f ↦ some f | none ↦ host.read_file name ]

-- The two tables with a new module.
abbrev pub add_module : Text → Module → Loader → Loader
add_module name pe l = record l {
  module_table = (name, pe) ∷ l.module_table;
  hinstance_table = (pe.image_base, pe) ∷ l.hinstance_table;
}

-- `load_pe_module` for a key that is not in the table; a file that is not there stops the process.
unfoldable pub load_new : Platform → LoadModule → Text → Loader → Run (Module × Loader)
load_new host load_module name l = elim (file_of host name) [
  | none ↦ aborted
  | some f ↦ load_pe host load_module name f l >>> (λ r. ended (r.0, add_module name r.0 r.1))
]

-- `load_pe_module`; a round is a file inside the loading of another.
unfoldable pub load_pe_module : Platform → ℕ → LoadModule
load_pe_module host zero name l = unfinished
load_pe_module host (suc fuel) name l = elim (find_module (module_key host name) l.module_table) [
  | some pe ↦ ended (pe, l)
  | none ↦ load_new host (load_pe_module host fuel) (module_key host name) l
]

-- `ldr_get_module_handle`, with the executable's module.
unfoldable pub get_module_handle : Platform → Module → Option Text → Loader → ℕ
get_module_handle host exec_module none l = exec_module.image_base
get_module_handle host exec_module (some name) l =
    let lo = map host.to_lower name in
    elim (find_module lo l.module_table) [
      | some pe ↦ pe.image_base
      | none ↦ elim (find_module (lo ++ (b'.' ∷ b'd' ∷ b'l' ∷ b'l' ∷ [])) l.module_table) [
        | some pe ↦ pe.image_base
        | none ↦ 0
      ]
    ]

-- `ldr_get_proc_address`
pub get_proc_address : Platform → ℕ → Text → Loader → Outcome ℕ
get_proc_address host handle proc_name l = elim (find_hinstance handle l.hinstance_table) [
  | some pe ↦ find_function_by_name (host.strcmp_zero proc_name l.memory) pe l.memory
  | none ↦ panic
]

-- `ldr_get_entry_point`
pub get_entry_point : ℕ → Loader → Outcome ℕ
get_entry_point handle l = elim (find_hinstance handle l.hinstance_table) [
  | some pe ↦ done pe.entry_point
  | none ↦ panic
]
