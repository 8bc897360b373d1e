-- ===== src/Host/Loader/Modules/Images.antt =====
-- The parts of `load_pe` in src/uwin/ldr.cpp before and after the imports: an image's place in the address
-- space, its sections, its relocation, and the final protection.
use uwin_old.Common.{ℕ, ◌+◌, ◌-◌, ◌*◌, ◌/◌}
use uwin_old.Common.{Bool, not, ◌&&◌, ◌||◌, List, [], ◌∷◌}
use uwin_old.Common.{ltb, ◌==◌, if◌then◌else◌}
use uwin_old.Common.{Outcome, done, ◌>>=◌, ◌>>◌, require, u32, sub32}
use uwin_old.Common.Bytes.{Memory, store_word}
use uwin_old.Host.MemoryMap.{Space, prot_r, prot_rw, prot_n, map_fixed, map_dynamic, set_memprotect}
use uwin_old.Host.Loader.Runs.{Run, ended, ◌>>>◌, run}
use uwin_old.Host.Loader.Relocs.{relocate_table}
use uwin_old.Common.{◌^◌}
use uwin_old.Host.Loader.Modules.{ImageSection, PeFile}

-- `uwin::align_up`
abbrev pub align_up : ℕ → ℕ → ℕ
align_up v alignment = u32 ((v + alignment - 1) / alignment * alignment)

-- The assertions on the headers.
abbrev pub has_headers : PeFile → Bool
has_headers f =
    f.e_magic == 0x5a4d
    && f.nt_signature == 0x4550
    && f.machine == 0x14c
    && not (f.size_of_optional_header == 0)
    && f.magic == 0x10b
    && (f.subsystem == 2 || f.subsystem == 3)

-- The memory reserved for the image.
unfoldable pub reserve : ℕ → PeFile → Space → Outcome (ℕ × Space)
reserve page f s =
    if f.relocs_stripped
    then map_fixed page s f.preferred_base f.size_of_image prot_n
      >>= (λ s'. done (f.preferred_base, s'))
    else map_dynamic page s f.size_of_image prot_n

-- `memcpy(sect, pe_file_data + raw_ptr, size)`
unfoldable pub write_bytes : ℕ → List ℕ → Memory → Memory
write_bytes a [] m = m
write_bytes a (b ∷ bs) m = write_bytes (a + 1) bs (store_word 1 a b m)

-- The first loop over the sections.
unfoldable pub load_sections : ℕ → ℕ → List ImageSection → Space × Memory → Outcome (Space × Memory)
load_sections page image_base [] sm = done sm
load_sections page image_base (section ∷ sections) sm =
    let start = u32 (image_base + section.virtual_address) in
    map_fixed page sm.0 start (align_up section.virtual_size page) prot_rw
    >>= (λ s. load_sections page image_base sections (s, write_bytes start section.raw_data sm.1))

-- "Applying relocations...", with more rounds than the 2^31 that the entries of a block can take, and one
-- for every byte of the table.
unfoldable pub relocate : PeFile → ℕ → Memory → Run Memory
relocate f image_base m =
    let table = u32 (image_base + f.reloc_rva) in
    if not f.relocs_stripped && ltb 5 f.number_of_rva_and_sizes
    then relocate_table (2 ^ 32 + f.reloc_size) image_base (sub32 image_base f.preferred_base) table
        (table + f.reloc_size) m
    else ended m

-- `load_pe` down to the relocations: the base, the address space and the memory.
unfoldable pub place_image : ℕ → PeFile → Space → Memory → Run (ℕ × (Space × Memory))
place_image page f s m = run (require (has_headers f) >> reserve page f s) >>> (λ reserved.
    run (load_sections page reserved.0 f.sections (reserved.1, m))
    >>> (λ loaded. relocate f reserved.0 loaded.1 >>> (λ m'. ended (reserved.0, (loaded.0, m')))))

-- "finalize sections protection"
unfoldable pub protect_sections : ℕ → ℕ → List ImageSection → Space → Outcome Space
protect_sections page image_base [] s = done s
protect_sections page image_base (section ∷ sections) s =
    let prot = if section.writable then prot_rw else if section.readable then prot_r else prot_n in
    set_memprotect page s (u32 (image_base + section.virtual_address))
      (align_up section.virtual_size page) prot
    >>= protect_sections page image_base sections
