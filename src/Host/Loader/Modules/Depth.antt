-- ===== src/Host/Loader/Modules/Depth.antt =====
-- The recursion of `load_pe_module` in src/uwin/ldr.cpp ends where the imports have no cycle.
use uwin_old.Common.{zero, suc, ◌<◌}
use uwin_old.Common.{Outcome, done, panic, ◌≡◌, refl, sym, inl, inr, arith}
use uwin_old.Common.{some, List, [], ◌∷◌}
use uwin_old.Common.{Option-cases}
use uwin_old.Common.{◌>>◌, require}
use mathlib.Core.Path.{subst}
use uwin_old.Common.{ℕ, ◌+◌, ◌^◌, Bool, false, not, ◌&&◌, ltb, u32, sub32, ◌⊎◌, ap, ◌∙◌, Bool-cases}
use uwin_old.Host.Loader.Relocs.{relocate_table}
use uwin_old.Host.Loader.Relocs.Places.{Apart}
use uwin_old.Host.Loader.Relocs.Table.{Block, Encodes, table_size, all_places}
use uwin_old.Host.Loader.Relocs.Image.{relocate_table-shift_all}
use uwin_old.Host.Loader.Runs.{Run}
use uwin_old.Ksvc.Text.{Text}
use uwin_old.Host.MemoryMap.{Space}
use uwin_old.Host.Loader.Runs.{run, ◌>>>◌, ended, Finishes, Finishes-then, Finishes-run}
use uwin_old.Host.Loader.Modules.{Imported, PeFile, Platform, Loader, find_module, module_key}
use uwin_old.Host.Loader.Modules.Images.{
  has_headers, place_image, reserve, load_sections, relocate, protect_sections,
}
use uwin_old.Host.Loader.Modules.Load.{
  LoadModule, link_imports, imports_of, load_pe, file_of, load_pe_module,
}
use uwin_old.Host.Loader.Modules.Steps.{
  load_pe_module-found, load_pe_module-missing, load_new-some, load_new-none,
}

-- Every import has a rank below a bound.
abbrev pub RanksBelow : Platform → (Text → ℕ) → ℕ → List Imported → Type 0
RanksBelow host rank bound [] = Unit {0}
RanksBelow host rank bound (i ∷ imports) =
    (rank (module_key host i.module_name) < bound) × RanksBelow host rank bound imports

-- Files import files of a lower rank only.
abbrev pub IsAcyclic : Platform → (Text → ℕ) → Type 0
IsAcyclic host rank =
    (key : Text) (f : PeFile)
    → file_of host key ≡ some f
    → RanksBelow host rank (rank key) (imports_of f)

abbrev has_relocations : PeFile → Bool
has_relocations f = not f.relocs_stripped && ltb 5 f.number_of_rva_and_sizes

abbrev table_of : PeFile → ℕ → ℕ
table_of f base = u32 (base + f.reloc_rva)

-- In memory, the relocation table of a file that has one consists of blocks, which no entry changes.
abbrev pub IsTable : PeFile → ℕ → (ℕ → ℕ) → Type 0
IsTable f base m =
    (has_relocations f ≡ false)
    ⊎ ((bs : List Block) × ((table_size bs ≡ f.reloc_size)
          × Encodes m (table_of f base) bs
          × (table_of f base + table_size bs < 2 ^ 32)
          × Apart (table_of f base) (table_of f base + table_size bs) (all_places base bs)))

-- So it is on the memory that the file's sections were copied to, wherever the file was put.
abbrev pub TableLoaded : ℕ → PeFile → Type 0
TableLoaded page f =
    (base : ℕ) (sm loaded : Space × (ℕ → ℕ))
    → load_sections page base f.sections sm ≡ done loaded
    → IsTable f base loaded.1

abbrev pub TablesLoaded : Platform → Type 0
TablesLoaded host =
    (key : Text) (f : PeFile) → file_of host key ≡ some f → TableLoaded host.page_size f

Finishes-ended : (r : Run (ℕ → ℕ)) (m : ℕ → ℕ) → r ≡ ended m → Finishes r
Finishes-ended r m e = subst (λ r. Finishes r) (sym e) tt

-- The loop over such a table ends.
Finishes-relocate :
    (f : PeFile) (base : ℕ) (m : ℕ → ℕ) → IsTable f base m → Finishes (relocate f base m)
unfolding relocate
Finishes-relocate f base m (inl without) = rw without tt
Finishes-relocate f base m (inr (bs, (size, encodes, small, apart))) =
    let table = table_of f base in
    let d = sub32 base f.preferred_base in
    let ran =
      relocate_table-shift_all base d table (table + table_size bs) m small (2 ^ 32 + f.reloc_size)
        table bs m (omega arith) (omega arith) refl encodes apart (λ b l h. refl) in
    let ran' =
      ap (λ n. relocate_table (2 ^ 32 + f.reloc_size) base d table (table + n) m) (sym size)
      ∙ ran in
    elim (Bool-cases (has_relocations f)) [
      | inl with_table ↦ rw with_table (Finishes-ended _ _ ran')
      | inr without ↦ rw without tt
    ]

Finishes-loaded :
    (page base : ℕ) (f : PeFile) (o : Outcome (Space × (ℕ → ℕ)))
    → ((loaded : Space × (ℕ → ℕ)) → o ≡ done loaded → IsTable f base loaded.1)
    → Finishes {A = ℕ × (Space × (ℕ → ℕ))}
        (run o >>> (λ loaded. relocate f base loaded.1 >>> (λ m'. ended (base, (loaded.0, m')))))
Finishes-loaded page base f (done loaded) tables =
    Finishes-then (relocate f base loaded.1) _
      (Finishes-relocate f base loaded.1 (tables loaded refl)) (λ m'. tt)
Finishes-loaded page base f panic tables = tt

Finishes-place_image :
    (page : ℕ) (f : PeFile) (s : Space) (m : ℕ → ℕ)
    → TableLoaded page f
    → Finishes (place_image page f s m)
unfolding place_image
Finishes-place_image page f s m tables =
    Finishes-then (run (require (has_headers f) >> reserve page f s)) _ (Finishes-run _)
      (λ reserved.
        Finishes-loaded page reserved.0 f (load_sections page reserved.0 f.sections (reserved.1, m))
          (tables reserved.0 (reserved.1, m)))

Finishes-link_imports :
    (host : Platform) (load_module : LoadModule) (rank : Text → ℕ) (bound base : ℕ)
    → ((name : Text) (l : Loader)
        → rank (module_key host name) < bound
        → Finishes (load_module name l))
    → (imports : List Imported) (l : Loader) → RanksBelow host rank bound imports
    → Finishes (link_imports host load_module base imports l)
unfolding link_imports
Finishes-link_imports host load_module rank bound base loads [] l low = tt
Finishes-link_imports host load_module rank bound base loads (i ∷ imports) l low =
    Finishes-then (load_module i.module_name l) _ (loads i.module_name l low.0) (λ dep.
      Finishes-then _ _ (Finishes-run _) (λ m.
        Finishes-link_imports host load_module rank bound base loads imports
          (record dep.1 { memory = m }) low.1))

Finishes-load_pe :
    (host : Platform) (load_module : LoadModule) (rank : Text → ℕ) (bound : ℕ) (key : Text)
    (f : PeFile) (l : Loader)
    → ((name : Text) (l : Loader)
        → rank (module_key host name) < bound
        → Finishes (load_module name l))
    → TableLoaded host.page_size f
    → RanksBelow host rank bound (imports_of f)
    → Finishes (load_pe host load_module key f l)
unfolding load_pe
Finishes-load_pe host load_module rank bound key f l loads tables low =
    Finishes-then (place_image host.page_size f l.space l.memory) _
      (Finishes-place_image host.page_size f l.space l.memory tables)
      (λ placed.
        Finishes-then
          (link_imports host load_module placed.0 (imports_of f)
            (record l { space = placed.1.0; memory = placed.1.1 }))
          _
          (Finishes-link_imports host load_module rank bound placed.0 loads (imports_of f)
            (record l { space = placed.1.0; memory = placed.1.1 }) low)
          (λ linked.
            Finishes-then (run (protect_sections host.page_size placed.0 f.sections linked.space)) _
              (Finishes-run _) (λ s. tt)))

-- Where files import files of a lower rank only, and the relocation table of each file that has one
-- consists of blocks, below the top of the address space and changed by none of its entries, on the memory
-- that the file's sections were copied to: the loading of a module ends, or stops the process, as soon as it
-- may go deeper than the module's rank.
pub load_pe_module-Finishes :
    (host : Platform) (rank : Text → ℕ) (fuel : ℕ) (name : Text) (l : Loader)
    → IsAcyclic host rank
    → TablesLoaded host
    → rank (module_key host name) < fuel
    → Finishes (load_pe_module host fuel name l)
load_pe_module-Finishes host rank zero name l acyclic tables low = absurd (omega arith)
load_pe_module-Finishes host rank (suc fuel) name l acyclic tables low =
    let key = module_key host name in
    elim (Option-cases (find_module key l.module_table)) [
      | inl missing ↦
          subst (λ r. Finishes r) (sym (load_pe_module-missing host fuel name l missing))
            (elim (Option-cases (file_of host key)) [
              | inl no_file ↦
                  subst (λ r. Finishes r)
                    (sym (load_new-none host (load_pe_module host fuel) key l no_file)) tt
              | inr file ↦
                  subst (λ r. Finishes r)
                    (sym (load_new-some host (load_pe_module host fuel) key l file.0 file.1))
                    (Finishes-then _ _
                      (Finishes-load_pe host (load_pe_module host fuel) rank (rank key) key file.0 l
                        (λ dep l' lower.
                          load_pe_module-Finishes host rank fuel dep l' acyclic tables
                            (omega arith))
                        (tables key file.0 file.1) (acyclic key file.0 file.1))
                      (λ r. tt))
            ])
      | inr there ↦
          subst (λ r. Finishes r) (sym (load_pe_module-found host fuel name l there.0 there.1)) tt
    ]
