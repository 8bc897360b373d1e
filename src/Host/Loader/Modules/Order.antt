-- ===== src/Host/Loader/Modules/Order.antt =====
-- The order of the modules that src/uwin/ldr.cpp has loaded, and of the routines that it lists for them.
use uwin_old.Common.{ℕ, zero, suc}
use uwin_old.Common.{◌≡◌, refl, sym, ap, ◌∙◌, inl, inr}
use uwin_old.Common.{some, List, [], ◌∷◌, ◌++◌}
use uwin_old.Common.{Bool-cases, Option-cases}
use mathlib.Core.Path.{subst}
use uwin_old.Ksvc.Text.{Text}
use uwin_old.Common.Texts.{same_text, same_text_refl}
use uwin_old.Host.Loader.Runs.{ended}
use uwin_old.Host.Loader.Exports.{Module}
use uwin_old.Host.Loader.Modules.{Imported, PeFile, Platform, Loader, find_module, module_key}
use uwin_old.Host.Loader.Modules.Load.{
  LoadModule, link_imports, module_of, imports_of, init_routine, file_of, add_module, load_new,
  load_pe_module,
}
use uwin_old.Host.Loader.Modules.Steps.{
  ended-injective, link_imports-ended, load_pe-ended, load_new-ended, load_pe_module-found,
  load_pe_module-missing,
}

abbrev pub ModuleTable : Type 0
ModuleTable = List (Text × Module)

-- A key is in the table.
abbrev pub Present : Text → ModuleTable → Type 0
Present key table = (pe : Module) × (find_module key table ≡ some pe)

-- Everything that is imported is in the table.
abbrev pub AllPresent : Platform → List Imported → ModuleTable → Type 0
AllPresent host [] table = Unit {0}
AllPresent host (i ∷ imports) table =
    Present (module_key host i.module_name) table × AllPresent host imports table

-- Every module comes from its file, was added to a table that had all that it imports, and its
-- routine stands behind those of the modules that were there.
abbrev pub IsOrdered : Platform → ModuleTable → List (ℕ × ℕ) → Type 0
IsOrdered host [] routines = routines ≡ []
IsOrdered host (entry ∷ table) routines =
    (f : PeFile) × (earlier : List (ℕ × ℕ)) × ((file_of host entry.0 ≡ some f)
      × (AllPresent host (imports_of f) table
          × ((routines ≡ earlier ++ init_routine f entry.1) × IsOrdered host table earlier)))

abbrev Grows : ModuleTable → ModuleTable → Type 0
Grows table table' = (key : Text) → Present key table → Present key table'

abbrev LoaderIsOrdered : Platform → Loader → Type 0
LoaderIsOrdered host l = IsOrdered host l.module_table l.library_init_routines

-- What the loading of a module does, as the loading of its importer sees it.
abbrev Keeps : Platform → LoadModule → Type 0
Keeps host load_module =
    (name : Text) (l l' : Loader) (pe : Module)
    → load_module name l ≡ ended (pe, l')
    → LoaderIsOrdered host l
    → LoaderIsOrdered host l'
      × (Grows l.module_table l'.module_table × Present (module_key host name) l'.module_table)

AllPresent-Grows :
    (host : Platform) (imports : List Imported) (t t' : ModuleTable)
    → Grows t t'
    → AllPresent host imports t
    → AllPresent host imports t'
AllPresent-Grows host [] t t' grows all = tt
AllPresent-Grows host (i ∷ imports) t t' grows all =
    (grows (module_key host i.module_name) all.0, AllPresent-Grows host imports t t' grows all.1)

Present-add :
    (key : Text) (entry : Text × Module) (t : ModuleTable) → Present key t → Present key (entry ∷ t)
unfolding find_module
Present-add key entry t there = elim (Bool-cases (same_text key entry.0)) [
  | inl same ↦ (entry.1, rw same refl)
  | inr other ↦ (there.0, rw other there.1)
]

Present-self : (key : Text) (pe : Module) (t : ModuleTable) → Present key ((key, pe) ∷ t)
unfolding find_module
Present-self key pe t = (pe, rw (same_text_refl key) refl)

module _ (host : Platform) (load_module : LoadModule) (keeps : Keeps host load_module) where
  link_imports-IsOrdered :
      (base : ℕ) (imports : List Imported) (l l' : Loader)
      → link_imports host load_module base imports l ≡ ended l'
      → LoaderIsOrdered host l
      → LoaderIsOrdered host l'
        × (Grows l.module_table l'.module_table × AllPresent host imports l'.module_table)
  unfolding link_imports
  link_imports-IsOrdered base [] l l' e ordered =
      let same = ended-injective l l' e in
      (
        subst (λ x. LoaderIsOrdered host x) same ordered,
        (subst (λ (x : Loader). Grows l.module_table x.module_table) same (λ key there. there), tt),
      )
  link_imports-IsOrdered base (i ∷ imports) l l' e ordered =
      let step = link_imports-ended host load_module base i imports l l' e in
      let dep = keeps i.module_name l step.0.1 step.0.0 step.2.0 ordered in
      let rest =
        link_imports-IsOrdered base imports (record step.0.1 { memory = step.1 }) l' step.2.1
          dep.0 in
      (
        rest.0,
        (
          λ key there. rest.1.0 key (dep.1.0 key there),
          (rest.1.0 (module_key host i.module_name) dep.1.1, rest.1.1),
        ),
      )

  load_new-IsOrdered :
      (key : Text) (l l' : Loader) (pe : Module)
      → load_new host load_module key l ≡ ended (pe, l')
      → LoaderIsOrdered host l
      → LoaderIsOrdered host l'
        × (Grows l.module_table l'.module_table × Present key l'.module_table)
  load_new-IsOrdered key l l' pe e ordered =
      let new = load_new-ended host load_module key l l' pe e in
      let f = new.0 in
      let steps = load_pe-ended host load_module key f l new.1 pe new.2.1.0 in
      let linked = steps.4 in
      let rest =
        link_imports-IsOrdered steps.0 (imports_of f)
          (record l { space = steps.1; memory = steps.3 }) linked steps.5.0 ordered in
      let final : l'
          ≡ add_module key pe (record linked {
            space = steps.2;
            library_init_routines =
                linked.library_init_routines ++ init_routine f (module_of key f steps.0);
          }) =
        new.2.1.1 ∙ ap (λ x. add_module key pe x) steps.5.1.1 in
      subst
        (λ (x : Loader).
          LoaderIsOrdered host x
          × (Grows l.module_table x.module_table × Present key x.module_table))
        (sym final)
        (
          (
            f,
            linked.library_init_routines,
            (
              new.2.0,
              (
                rest.1.1,
                (
                  ap (λ x. linked.library_init_routines ++ init_routine f x) (sym steps.5.1.0),
                  rest.0,
                ),
              ),
            ),
          ),
          (
            λ k there. Present-add k (key, pe) linked.module_table (rest.1.0 k there),
            Present-self key pe linked.module_table,
          ),
        )

Keeps-load_pe_module : (host : Platform) (fuel : ℕ) → Keeps host (load_pe_module host fuel)
unfolding load_pe_module
Keeps-load_pe_module host zero name l l' pe e ordered = cc
Keeps-load_pe_module host (suc fuel) name l l' pe e ordered =
    let key = module_key host name in
    elim (Option-cases (find_module key l.module_table)) [
      | inl missing ↦
          load_new-IsOrdered host (load_pe_module host fuel) (Keeps-load_pe_module host fuel) key l
            l' pe (sym (load_pe_module-missing host fuel name l missing) ∙ e) ordered
      | inr there ↦
          let same =
            ap (λ r. r.1)
              (ended-injective (there.0, l) (pe, l')
                (sym (load_pe_module-found host fuel name l there.0 there.1) ∙ e)) in
          subst
            (λ (x : Loader).
              LoaderIsOrdered host x
              × (Grows l.module_table x.module_table × Present key x.module_table))
            same (ordered, (λ k old. old, there))
    ]

-- Loading a module, however deep its imports go, keeps the order: every module is in the table
-- before those that import it, and the routine of a DLL is listed behind the routines of all that
-- it imports.
pub load_pe_module-IsOrdered :
    (host : Platform) (fuel : ℕ) (name : Text) (l l' : Loader) (pe : Module)
    → load_pe_module host fuel name l ≡ ended (pe, l')
    → IsOrdered host l.module_table l.library_init_routines
    → IsOrdered host l'.module_table l'.library_init_routines
load_pe_module-IsOrdered host fuel name l l' pe e ordered =
    (Keeps-load_pe_module host fuel name l l' pe e ordered).0
