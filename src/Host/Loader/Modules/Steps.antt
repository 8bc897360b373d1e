-- ===== src/Host/Loader/Modules/Steps.antt =====
-- What the loading of a module that ended went through, `load_pe` and `load_pe_module` of src/uwin/ldr.cpp.
use uwin_old.Common.{ℕ, suc, ◌+◌}
use uwin_old.Common.{◌≡◌, refl, sym, ap, ◌∙◌, inl, inr}
use uwin_old.Common.{none, some, List, ◌∷◌, ◌++◌}
use uwin_old.Common.{Option-cases}
use uwin_old.Common.{u32}
use uwin_old.Ksvc.Text.{Text}
use uwin_old.Host.MemoryMap.{Space}
use uwin_old.Host.Loader.Runs.{Run, ended, aborted, unfinished, ◌>>>◌, run, then-ended}
use uwin_old.Host.Loader.Exports.{Module}
use uwin_old.Host.Loader.Modules.{Imported, PeFile, Platform, Loader, find_module, module_key}
use uwin_old.Host.Loader.Modules.Images.{place_image, protect_sections}
use uwin_old.Host.Loader.Modules.Load.{
  LoadModule, link_symbols, link_imports, module_of, imports_of, init_routine, load_pe, file_of,
  add_module, load_new, load_pe_module,
}

abbrev get_ended {ℓ} : {A : Type ℓ} → Run A → A → A
get_ended (ended a) d = a
get_ended aborted d = d
get_ended unfinished d = d

pub ended-injective {ℓ} : {A : Type ℓ} (a b : A) → ended a ≡ ended b → a ≡ b
ended-injective a b e = ap (λ r. get_ended r a) e

-- A module that is linked: it was loaded, its symbols were found, and the rest went on from there.
pub link_imports-ended :
    (host : Platform) (load_module : LoadModule) (base : ℕ) (i : Imported) (imports : List Imported)
    (l l' : Loader)
    → link_imports host load_module base (i ∷ imports) l ≡ ended l'
    → (dep : Module × Loader) × (m : ℕ → ℕ) × ((load_module i.module_name l ≡ ended dep)
        × (link_imports host load_module base imports (record dep.1 { memory = m }) ≡ ended l'))
unfolding link_imports
link_imports-ended host load_module base i imports l l' e =
    let link : Module × Loader → Run (ℕ → ℕ) = λ dep.
      run (link_symbols host dep.0 (u32 (base + i.thunk_table_rva)) i.symbols dep.1.memory) in
    let first =
      then-ended (load_module i.module_name l)
        (λ dep.
          link dep
          >>> (λ m. link_imports host load_module base imports (record dep.1 { memory = m })))
        l' e in
    let dep = first.0 in
    let second =
      then-ended (link dep)
        (λ m. link_imports host load_module base imports (record dep.1 { memory = m })) l'
        first.1.1 in
    (dep, second.0, (first.1.0, second.1.1))

-- The loading of a file that ended: the image was placed, the imports were linked from there on, and the
-- final state differs from theirs in the address space and by the module's own routine.
pub load_pe-ended :
    (host : Platform) (load_module : LoadModule) (name : Text) (f : PeFile) (l l' : Loader)
    (pe : Module)
    → load_pe host load_module name f l ≡ ended (pe, l')
    → (base : ℕ) × (s s' : Space) × (m : ℕ → ℕ) × (linked : Loader) × ((link_imports host
            load_module base
            (imports_of f)
            (record l { space = s; memory = m })
          ≡ ended linked)
        × ((pe ≡ module_of name f base)
            × (l' ≡ record linked {
              space = s';
              library_init_routines =
                  linked.library_init_routines ++ init_routine f (module_of name f base);
            })))
unfolding load_pe
load_pe-ended host load_module name f l l' pe e =
    let finish : ℕ → Loader → Run (Module × Loader) = λ base linked.
      run (protect_sections host.page_size base f.sections linked.space) >>> (λ s. ended (
        module_of name f base,
        record linked {
          space = s;
          library_init_routines =
              linked.library_init_routines ++ init_routine f (module_of name f base);
        },
      )) in
    let first =
      then-ended (place_image host.page_size f l.space l.memory)
        (λ placed.
          link_imports host load_module placed.0 (imports_of f)
            (record l { space = placed.1.0; memory = placed.1.1 })
          >>> finish placed.0)
        (pe, l') e in
    let base = first.0.0 in
    let second =
      then-ended
        (link_imports host load_module base (imports_of f)
          (record l { space = first.0.1.0; memory = first.0.1.1 }))
        (finish base) (pe, l') first.1.1 in
    let linked = second.0 in
    let third =
      then-ended (run (protect_sections host.page_size base f.sections linked.space))
        (λ s. ended (
          module_of name f base,
          record linked {
            space = s;
            library_init_routines =
                linked.library_init_routines ++ init_routine f (module_of name f base);
          },
        ))
        (pe, l') second.1.1 in
    let final = ended-injective _ (pe, l') third.1.1 in
    (
      base,
      first.0.1.0,
      third.0,
      first.0.1.1,
      linked,
      (second.1.0, (sym (ap (λ r. r.0) final), sym (ap (λ r. r.1) final))),
    )

-- The two ways of `load_pe_module`.
pub load_pe_module-found :
    (host : Platform) (fuel : ℕ) (name : Text) (l : Loader) (pe : Module)
    → find_module (module_key host name) l.module_table ≡ some pe
    → load_pe_module host (suc fuel) name l ≡ ended (pe, l)
unfolding load_pe_module
load_pe_module-found host fuel name l pe there = rw (there, load_pe_module) refl

pub load_pe_module-missing :
    (host : Platform) (fuel : ℕ) (name : Text) (l : Loader)
    → find_module (module_key host name) l.module_table ≡ none
    → load_pe_module host (suc fuel) name l
      ≡ load_new host (load_pe_module host fuel) (module_key host name) l
unfolding load_pe_module
load_pe_module-missing host fuel name l missing = rw (missing, load_pe_module) refl

pub load_new-some :
    (host : Platform) (load_module : LoadModule) (key : Text) (l : Loader) (f : PeFile)
    → file_of host key ≡ some f
    → load_new host load_module key l
      ≡ (load_pe host load_module key f l >>> (λ r. ended (r.0, add_module key r.0 r.1)))
unfolding load_new
load_new-some host load_module key l f there = rw (there, load_new) refl

pub load_new-none :
    (host : Platform) (load_module : LoadModule) (key : Text) (l : Loader)
    → file_of host key ≡ none
    → load_new host load_module key l ≡ aborted
unfolding load_new
load_new-none host load_module key l missing = rw (missing, load_new) refl

-- A module that was not in the table: its file was loaded, and it is in the tables then.
pub load_new-ended :
    (host : Platform) (load_module : LoadModule) (key : Text) (l l' : Loader) (pe : Module)
    → load_new host load_module key l ≡ ended (pe, l')
    → (f : PeFile) × (l'' : Loader) × ((file_of host key ≡ some f)
        × ((load_pe host load_module key f l ≡ ended (pe, l'')) × (l' ≡ add_module key pe l'')))
load_new-ended host load_module key l l' pe e = elim (Option-cases (file_of host key)) [
  | inl missing ↦ let bad = sym (load_new-none host load_module key l missing) ∙ e in cc
  | inr there ↦
      let last =
        then-ended (load_pe host load_module key there.0 l)
          (λ r. ended (r.0, add_module key r.0 r.1)) (pe, l')
          (sym (load_new-some host load_module key l there.0 there.1) ∙ e) in
      let pair = ended-injective _ (pe, l') last.1.1 in
      let same : last.0.0 ≡ pe = ap (λ r. r.0) pair in
      (
        there.0,
        last.0.1,
        (
          there.1,
          (
            last.1.0 ∙ ap (λ x. ended (x, last.0.1)) same,
            sym (ap (λ r. r.1) pair) ∙ ap (λ x. add_module key x last.0.1) same,
          ),
        ),
      )
]
