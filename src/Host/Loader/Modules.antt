-- ===== src/Host/Loader/Modules.antt =====
-- The modules of the process, `load_pe`, `load_pe_module` and the functions on the tables of modules in
-- src/uwin/ldr.cpp. A file is the record of its headers, with the null-terminated tables as lists; the
-- image's memory is that of the other modules of the loader.
pub mod Bytes
pub mod Images
pub mod Load
pub mod Steps
pub mod Order
pub mod Depth
pub mod Cycles
pub mod Lookup
mod Tests
use uwin_old.Common.{ℕ, zero, suc, ◌+◌}
use uwin_old.Common.{Bool, ◌||◌, Option, none, some, List, [], ◌∷◌, map}
use uwin_old.Common.{◌==◌, if◌then◌else◌, length}
use uwin_old.Common.{get_or, drop}
use uwin_old.Ksvc.Text.{Text}
use uwin_old.Common.Texts.{same_text}
use uwin_old.Common.Bytes.{Memory}
use uwin_old.Host.MemoryMap.{Space}
use uwin_old.Host.Loader.Exports.{Module}

-- An entry of an import lookup table, and a module with what is imported from it.
pub data Symbol : Type 0 where
  by_ordinal : ℕ → Symbol
  by_name : Text → Symbol

pub record Imported : Type 0 where
  pub module_name : Text
  pub symbols : List Symbol
  pub thunk_table_rva : ℕ

-- IMAGE_SECTION_HEADER, with the raw data that it points to.
pub record ImageSection : Type 0 where
  pub virtual_address : ℕ
  pub virtual_size : ℕ
  pub raw_data : List ℕ
  pub readable : Bool
  pub writable : Bool

-- What `load_pe` reads of a file's headers.
pub record PeFile : Type 0 where
  pub e_magic : ℕ
  pub nt_signature : ℕ
  pub machine : ℕ
  pub relocs_stripped : Bool
  pub is_dll : Bool
  pub size_of_optional_header : ℕ
  pub magic : ℕ
  pub subsystem : ℕ
  pub address_of_entry_point : ℕ
  pub base_of_code : ℕ
  pub preferred_base : ℕ
  pub size_of_image : ℕ
  pub size_of_stack_reserve : ℕ
  pub number_of_rva_and_sizes : ℕ
  pub export_rva : ℕ
  pub export_size : ℕ
  pub reloc_rva : ℕ
  pub reloc_size : ℕ
  pub sections : List ImageSection
  pub imports : List Imported

-- What is outside the sources: the page size, the C library, the built-in DLLs, of which the generated
-- table has one for a name, and the files of the program's directory.
pub record Platform : Type 0 where
  pub page_size : ℕ
  pub to_lower : ℕ → ℕ
  pub strcmp_zero : Text → Memory → ℕ → Bool
  pub ldr_override : Text → Option PeFile
  pub read_file : Text → Option PeFile

-- The static variables, with the newest module first, and the guest's memory. `hinstance_table` gives a
-- module's place in `module_table` by the module itself.
pub record Loader : Type 0 where
  pub module_table : List (Text × Module)
  pub hinstance_table : List (ℕ × Module)
  pub library_init_routines : List (ℕ × ℕ)
  pub space : Space
  pub memory : Memory

-- `module_table.find`
unfoldable pub find_module : Text → List (Text × Module) → Option Module
find_module name [] = none
find_module name (entry ∷ table) =
    let rest = find_module name table in if same_text name entry.0 then some entry.1 else rest

-- `hinstance_table.find`
unfoldable pub find_hinstance : ℕ → List (ℕ × Module) → Option Module
find_hinstance handle [] = none
find_hinstance handle (entry ∷ table) =
    let rest = find_hinstance handle table in if handle == entry.0 then some entry.1 else rest

-- `while (i > 0 && name[i] != '\\' && name[i] != '/') i--;`, where a byte behind the end reads as 0
unfoldable pub last_slash : Text → ℕ → ℕ
last_slash name zero = 0
last_slash name (suc i) =
    let rest = last_slash name i in
    let c = get_or name (suc i) 0 in if (c == b'\\') || (c == b'/') then suc i else rest

-- "leave only basename" and "lower case" of `load_pe_module`
unfoldable pub module_key : Platform → Text → Text
module_key host name =
    let i = last_slash name (length name) in
    let c = get_or name i 0 in
    map host.to_lower (drop (if (c == b'\\') || (c == b'/') then i + 1 else i) name)
