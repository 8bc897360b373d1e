-- ===== src/Host/Loader/Exports.antt =====
-- The lookup of a module's functions, `find_function_by_ordinal` and `find_function_by_name` of
-- src/uwin/ldr.cpp, over the export directory in the guest's memory.
pub mod Names
mod Tests
use uwin_old.Common.{ℕ, zero, suc, ◌+◌, ◌*◌, ◌^◌}
use uwin_old.Common.{Bool, not, ◌&&◌}
use uwin_old.Common.{ltb, leb, ◌==◌, if◌then◌else◌}
use uwin_old.Common.{Outcome, done, ◌>>◌, require, u32, sub32}
use uwin_old.Ksvc.Text.{Text}
use uwin_old.Common.Bytes.{Memory, load}

-- `struct module`
pub record Module : Type 0 where
  pub name : Text
  pub image_base : ℕ
  pub entry_point : ℕ
  pub export_directory : ℕ
  pub export_directory_size : ℕ
  pub stack_size : ℕ
  pub code_base : ℕ

-- Fields of IMAGE_EXPORT_DIRECTORY.
abbrev pub ordinal_base : Module → Memory → ℕ
ordinal_base pe m = load 4 (pe.export_directory + 16) m

abbrev pub name_pointer_count : Module → Memory → ℕ
name_pointer_count pe m = load 4 (pe.export_directory + 24) m

-- `export_entries[ordinal]`, `names_table[i]` and `ordinal_table[i]`
abbrev pub export_entry : Module → Memory → ℕ → ℕ
export_entry pe m i = load 4 (u32 (pe.image_base + load 4 (pe.export_directory + 28) m) + 4 * i) m

abbrev pub name_pointer : Module → Memory → ℕ → ℕ
name_pointer pe m i = load 4 (u32 (pe.image_base + load 4 (pe.export_directory + 32) m) + 4 * i) m

abbrev pub ordinal_entry : Module → Memory → ℕ → ℕ
ordinal_entry pe m i = load 2 (u32 (pe.image_base + load 4 (pe.export_directory + 36) m) + 2 * i) m

-- `inside_edata`
abbrev pub inside_edata : Module → ℕ → Bool
inside_edata pe rva =
    leb pe.export_directory rva && ltb rva (u32 (pe.export_directory + pe.export_directory_size))

unfoldable pub find_function_by_ordinal : Module → ℕ → Memory → Outcome ℕ
find_function_by_ordinal pe biased_ordinal m =
    let ordinal = sub32 biased_ordinal (ordinal_base pe m) in
    let rva = export_entry pe m ordinal in
    require (not (pe.export_directory == 0))
    >> require (not (inside_edata pe rva))
    >> done (u32 (pe.image_base + rva))

-- `for (int i = 0; i < name_count; i++)` with so many rounds left, where `is_name` is what strcmp says of the
-- candidate at an address.
pub find_name : (ℕ → Bool) → Module → Memory → ℕ → ℕ → Outcome ℕ
find_name is_name pe m i zero = done 0
find_name is_name pe m i (suc left) =
    let rest = find_name is_name pe m (i + 1) left in
    if is_name (u32 (pe.image_base + name_pointer pe m i))
    then find_function_by_ordinal pe (u32 (ordinal_base pe m + ordinal_entry pe m i)) m
    else rest

-- A count of names from 2^31 on is negative as an `int`.
pub find_function_by_name : (ℕ → Bool) → Module → Memory → Outcome ℕ
find_function_by_name is_name pe m =
    let count = name_pointer_count pe m in
    require (not (pe.export_directory == 0))
    >> require (not (load 4 (pe.export_directory + 32) m == 0))
    >> find_name is_name pe m 0 (if ltb count (2 ^ 31) then count else 0)
