-- ===== src/Host/Loader/Samples.antt =====
-- The files and the platform of the concrete runs of src/uwin/ldr.cpp.
use uwin_old.Common.{ℕ, ◌+◌}
use uwin_old.Common.{◌≡◌, refl}
use uwin_old.Common.{true, false, ◌&&◌, Option, none, some, List, [], ◌∷◌, ◌++◌}
use uwin_old.Common.{leb, if◌then◌else◌}
use uwin_old.Common.{replicate}
use uwin_old.Ksvc.Text.{Text}
use uwin_old.Common.Texts.{same_text}
use uwin_old.Common.Bytes.{load, store_word}
use uwin_old.Host.MemoryMap.{prot_n, map_fixed, map_dynamic, set_memprotect}
use uwin_old.Host.Loader.Runs.{Run, ended, aborted, unfinished}
use uwin_old.Host.Loader.Exports.{Module, find_function_by_ordinal}
use uwin_old.Host.Loader.Modules.{
  by_ordinal, Imported, PeFile, Platform, Loader, find_module, last_slash, module_key,
}
use uwin_old.Host.Loader.Modules.Images.{
  place_image, reserve, load_sections, write_bytes, relocate, protect_sections,
}
use uwin_old.Host.Loader.Modules.Load.{
  resolve_symbol, link_symbols, link_imports, load_pe, load_new, load_pe_module,
}
use uwin_old.Host.Loader.Modules.Depth.{}

-- A DLL with a routine that exports one function by ordinal.
abbrev pub export_bytes : List ℕ
export_bytes =
    replicate 16 0
    ++ (1 ∷ 0 ∷ 0 ∷ 0 ∷ replicate 8 0)
    ++ (0x2c ∷ 0x10 ∷ 0 ∷ 0 ∷ replicate 12 0)
    ++ (0x40 ∷ 0 ∷ 0 ∷ 0 ∷ [])

abbrev pub library : PeFile
library = record {
  e_magic = 0x5a4d;
  nt_signature = 0x4550;
  machine = 0x14c;
  relocs_stripped = false;
  is_dll = true;
  size_of_optional_header = 224;
  magic = 0x10b;
  subsystem = 2;
  address_of_entry_point = 0x80;
  base_of_code = 0x1000;
  preferred_base = 0x10000000;
  size_of_image = 0x2000;
  size_of_stack_reserve = 0x100000;
  number_of_rva_and_sizes = 2;
  export_rva = 0x1000;
  export_size = 0x30;
  reloc_rva = 0;
  reloc_size = 0;
  sections =
      record {
        virtual_address = 0x1000;
        virtual_size = 0x100;
        raw_data = export_bytes;
        readable = true;
        writable = false;
      }
      ∷ [];
  imports = [];
}

-- "a.exe" imports "B.dll".
abbrev pub a_exe : Text
a_exe = b'a' ∷ b'.' ∷ b'e' ∷ b'x' ∷ b'e' ∷ []

abbrev pub imported : Text → List Imported
imported name =
    record { module_name = name; symbols = by_ordinal 1 ∷ []; thunk_table_rva = 0x1000 } ∷ []

abbrev pub executable : PeFile
executable = record library {
  is_dll = false;
  imports = imported (b'B' ∷ b'.' ∷ b'd' ∷ b'l' ∷ b'l' ∷ []);
}

abbrev pub read_file : Text → Option PeFile
read_file name = if same_text name a_exe then some executable else some library

abbrev pub platform : Platform
platform = record {
  page_size = 0x1000;
  to_lower = λ c. if leb 65 c && leb c 90 then c + 32 else c;
  strcmp_zero = λ name m a. false;
  ldr_override = λ name. none;
  read_file = read_file;
}

abbrev pub start : Loader
start = record {
  module_table = [];
  hinstance_table = [];
  library_init_routines = [];
  space = record { map_base = 0x1000000; prot = λ a. prot_n };
  memory = λ a. 0;
}

abbrev pub the_result {ℓ} : {A : Type ℓ} → A → Run A → A
the_result a (ended b) = b
the_result a aborted = a
the_result a unfinished = a

abbrev pub no_module : Module
no_module = record {
  name = [];
  image_base = 0;
  entry_point = 0;
  export_directory = 0;
  export_directory_size = 0;
  stack_size = 0;
  code_base = 0;
}

-- The state behind the loading of the executable.
abbrev pub loaded : Module × Loader
loaded = the_result (no_module, start) (load_pe_module platform 5 a_exe start)

pub ends : load_pe_module platform 5 a_exe start ≡ ended loaded
unfolding load_pe_module load_new load_pe link_imports link_symbols resolve_symbol
    find_function_by_ordinal place_image reserve load_sections write_bytes relocate protect_sections
    map_fixed map_dynamic set_memprotect load store_word find_module last_slash module_key
ends = refl

unfoldable pub some_file : PeFile → Option PeFile → PeFile
some_file f (some g) = g
some_file f none = f
