-- ===== src/Host/Loader/Modules/Tests.antt =====
-- An executable and a library with a relocation table, for src/uwin/ldr.cpp.
use mathlib.Core.Path.{subst}
use uwin_old.Host.Loader.Modules.Depth.{IsTable, TableLoaded}
use uwin_old.Common.{◌^◌, ◌<◌, ◌≤◌, u32, get_or, done}
use uwin_old.Host.MemoryMap.{Space, prot_rw, is_aligned, address_space}
use uwin_old.Common.{Outcome, panic, then-done, require-eq-done, ltb}
use uwin_old.Host.Loader.Modules.Images.{align_up}
use uwin_old.Host.Loader.Modules.Bytes.{load-write_bytes}
use uwin_old.Host.Loader.Relocs.Table.{Block, Encodes}
use uwin_old.Host.Loader.Relocs.{target}
use uwin_old.Common.{ℕ, ◌+◌}
use uwin_old.Common.{◌≡◌, refl}
use uwin_old.Common.{true, false, ◌&&◌, some, List, [], ◌∷◌, ◌++◌}
use uwin_old.Common.{if◌then◌else◌}
use uwin_old.Ksvc.Text.{Text}
use uwin_old.Common.Texts.{same_text}
use uwin_old.Common.Bytes.{load}
use uwin_old.Host.MemoryMap.{map_fixed}
use uwin_old.Host.Loader.Modules.{PeFile, Platform, last_slash, module_key}
use uwin_old.Host.Loader.Modules.Images.{load_sections, write_bytes}
use uwin_old.Host.Loader.Modules.Load.{load_pe_module}
use uwin_old.Host.Loader.Runs.{Finishes}
use uwin_old.Host.Loader.Runs.{Finishes}
use uwin_old.Host.Loader.Modules.Load.{imports_of}
use uwin_old.Host.Loader.Modules.Depth.{
  IsAcyclic, RanksBelow, TablesLoaded, load_pe_module-Finishes,
}
use mathlib.Core.Path.{ap}
use uwin_old.Common.{Bool-cases}
use uwin_old.Common.{arith}
use mathlib.Core.Path.{sym}
use uwin_old.Common.{inl}
use uwin_old.Common.{◌∙◌}
use uwin_old.Common.{inr}
use uwin_old.Host.Loader.Samples.{
  export_bytes, library, a_exe, executable, platform, start, some_file,
}

-- The executable is above the libraries.
abbrev rank : Text → ℕ
rank name = if same_text name a_exe then 1 else 0

-- The library with a relocation table of one block in its section, behind the export table: it shifts the
-- first word of the section.
abbrev table_bytes : List ℕ
table_bytes = 0 ∷ 0x10 ∷ 0 ∷ 0 ∷ 12 ∷ 0 ∷ 0 ∷ 0 ∷ 0 ∷ 0x30 ∷ 0 ∷ 0 ∷ []

abbrev moving : PeFile
moving = record library {
  number_of_rva_and_sizes = 16;
  reloc_rva = 0x1030;
  reloc_size = 12;
  sections =
      record {
        virtual_address = 0x1000;
        virtual_size = 0x100;
        raw_data = export_bytes ++ table_bytes;
        readable = true;
        writable = false;
      }
      ∷ [];
}

abbrev moving_platform : Platform
moving_platform = record platform {
  read_file = λ name. if same_text name a_exe then some executable else some moving;
}

abbrev reloc_blocks : List Block
reloc_blocks = record { page = 0x1000; entries = 0x3000 ∷ 0 ∷ [] } ∷ []

abbrev moving_bytes : List ℕ
moving_bytes = export_bytes ++ table_bytes

moving_word :
    (start : ℕ) (m : ℕ → ℕ) (n i a v : ℕ)
    → a ≡ start + i
    → i + n ≤ 60
    → load n i (λ j. get_or moving_bytes j 0) ≡ v
    → load n a (write_bytes start moving_bytes m) ≡ v
moving_word start m n i a v at le is =
    ap (λ x. load n x (write_bytes start moving_bytes m)) at
    ∙ load-write_bytes n start moving_bytes m i le
    ∙ is

moving-Encodes :
    (start : ℕ) (m : ℕ → ℕ) → Encodes (write_bytes start moving_bytes m) (start + 48) reloc_blocks
unfolding load
moving-Encodes start m =
    let word = moving_word start m in
    (
      (
        word 4 48 (start + 48) 0x1000 (omega arith) (omega arith) refl,
        word 4 52 (start + 48 + 4) 12 (omega arith) (omega arith) refl,
      ),
      (
        (
          (inr refl, (inl refl, tt)),
          (
            word 2 56 (start + 48 + 8) 0x3000 (omega arith) (omega arith) refl,
            (word 2 58 (start + 48 + 8 + 2) 0 (omega arith) (omega arith) refl, tt),
          ),
        ),
        tt,
      ),
    )

moving_place :
    (base : ℕ) → u32 (base + 0x1000) < 2 ^ 31 → target base 0x1000 0x3000 ≡ u32 (base + 0x1000)
moving_place base lt = omega arith

-- The table among the bytes at the section's place.
moving-IsTable :
    (base : ℕ) (m : ℕ → ℕ)
    → u32 (base + 0x1000) < 2 ^ 31
    → IsTable moving base (write_bytes (u32 (base + 0x1000)) moving_bytes m)
moving-IsTable base m low =
    let start = u32 (base + 0x1000) in
    let written = write_bytes start moving_bytes m in
    let at : start + 48 ≡ u32 (base + 0x1030) = omega arith in
    let place = moving_place base low in
    inr (
      reloc_blocks,
      (
        refl,
        subst (λ a. Encodes written a reloc_blocks) at (moving-Encodes start m),
        omega arith,
        (inl (omega arith), tt),
      ),
    )

loaded_or : Space × (ℕ → ℕ) → Outcome (Space × (ℕ → ℕ)) → Space × (ℕ → ℕ)
loaded_or x (done y) = y
loaded_or x panic = x

load_sections-moving :
    (base : ℕ) (sm out : Space × (ℕ → ℕ))
    → load_sections 0x1000 base moving.sections sm ≡ done out
    → (u32 (base + 0x1000) < 2 ^ 31) × (out.1 ≡ write_bytes (u32 (base + 0x1000)) moving_bytes sm.1)
unfolding load_sections map_fixed loaded_or
load_sections-moving base sm out e =
    let start = u32 (base + 0x1000) in
    let (s, (first, rest)) =
      then-done (map_fixed 0x1000 sm.0 start (align_up 0x100 0x1000) prot_rw)
        (λ s. done (s, write_bytes start moving_bytes sm.1)) out e in
    let (ok, is) =
      require-eq-done
        (is_aligned 0x1000 start
          && is_aligned 0x1000 (align_up 0x100 0x1000)
          && ltb start address_space
          && ltb (u32 (start + align_up 0x100 0x1000)) address_space)
        _ s first in
    (ground (arith, ok), sym (ap (λ (o : Outcome (Space × (ℕ → ℕ))). (loaded_or out o).1) rest))

moving-TableLoaded : TableLoaded 0x1000 moving
moving-TableLoaded base sm out e =
    let (low, is) = load_sections-moving base sm out e in
    subst (λ m. IsTable moving base m) (sym is) (moving-IsTable base sm.1 low)

moving_platform-IsAcyclic : IsAcyclic moving_platform rank
unfolding some_file module_key last_slash
moving_platform-IsAcyclic name f there = elim (Bool-cases (same_text name a_exe)) [
  | inl exe ↦
      let file : moving_platform.read_file name ≡ some executable = rw exe refl in
      let same : executable ≡ f = ap (λ o. some_file library o) (sym file ∙ there) in
      let low : RanksBelow moving_platform rank (rank name) (imports_of executable) =
        rw exe (omega arith, tt) in
      subst (λ g. RanksBelow moving_platform rank (rank name) (imports_of g)) same low
  | inr other ↦
      let file : moving_platform.read_file name ≡ some moving = rw other refl in
      let same : moving ≡ f = ap (λ o. some_file library o) (sym file ∙ there) in
      subst (λ g. RanksBelow moving_platform rank (rank name) (imports_of g)) same tt
]

moving-TablesLoaded : TablesLoaded moving_platform
unfolding some_file
moving-TablesLoaded name f there = elim (Bool-cases (same_text name a_exe)) [
  | inl exe ↦
      let file : moving_platform.read_file name ≡ some executable = rw exe refl in
      let same : executable ≡ f = ap (λ o. some_file library o) (sym file ∙ there) in
      subst (λ g. TableLoaded 0x1000 g) same (λ base sm out e. inl refl)
  | inr other ↦
      let file : moving_platform.read_file name ≡ some moving = rw other refl in
      let same : moving ≡ f = ap (λ o. some_file library o) (sym file ∙ there) in
      subst (λ g. TableLoaded 0x1000 g) same moving-TableLoaded
]

load_pe_module-Finishes_example : Finishes (load_pe_module moving_platform 2 a_exe start)
unfolding module_key last_slash
load_pe_module-Finishes_example =
    load_pe_module-Finishes moving_platform rank 2 a_exe start moving_platform-IsAcyclic
      moving-TablesLoaded (omega arith)
