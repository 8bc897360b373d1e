-- ===== src/Host/Loader/Modules/Cycles.antt =====
-- Files that import each other never load: src/uwin/ldr.cpp puts a module into its table only when all its
-- imports are loaded.
use uwin_old.Common.{ℕ, zero, suc}
use uwin_old.Common.{◌≡◌, refl, sym, ap, ◌∙◌, ◌≢◌, inl, inr}
use uwin_old.Common.{Bool, true, false, ◌||◌, none, some, List, [], ◌∷◌}
use uwin_old.Common.{Bool-cases, Option-cases, set}
use mathlib.Core.Path.{subst}
use uwin_old.Ksvc.Text.{Text}
use uwin_old.Common.Texts.{same_text, same_text-eq}
use uwin_old.Host.Loader.Runs.{ended}
use uwin_old.Host.Loader.Exports.{Module}
use uwin_old.Host.Loader.Modules.{Imported, PeFile, Platform, Loader, find_module, module_key}
use uwin_old.Host.Loader.Modules.Load.{
  LoadModule, link_imports, imports_of, file_of, add_module, load_new, load_pe_module,
}
use uwin_old.Host.Loader.Modules.Order.{ModuleTable}
use uwin_old.Host.Loader.Modules.Steps.{
  ended-injective, link_imports-ended, load_pe-ended, load_new-ended, load_pe_module-found,
  load_pe_module-missing,
}

-- Something of a set of keys is imported.
abbrev pub imports_some : Platform → (Text → Bool) → List Imported → Bool
imports_some host set [] = false
imports_some host set (i ∷ imports) =
    set (module_key host i.module_name) || imports_some host set imports

-- Each file of the set imports one of the set.
abbrev pub IsCyclic : Platform → (Text → Bool) → Type 0
IsCyclic host set =
    (key : Text) (f : PeFile)
    → set key ≡ true
    → file_of host key ≡ some f
    → imports_some host set (imports_of f) ≡ true

-- The table has no key of the set.
abbrev pub HasNoneOf : (Text → Bool) → ModuleTable → Type 0
HasNoneOf set table = (key : Text) → set key ≡ true → find_module key table ≡ none

-- A module that loads is not of the set, and neither is what loads with it.
abbrev Avoids : Platform → (Text → Bool) → LoadModule → Type 0
Avoids host set load_module =
    (name : Text) (l l' : Loader) (pe : Module)
    → load_module name l ≡ ended (pe, l')
    → HasNoneOf set l.module_table
    → (set (module_key host name) ≡ false) × HasNoneOf set l'.module_table

HasNoneOf-add :
    (set : Text → Bool) (key : Text) (pe : Module) (t : ModuleTable)
    → set key ≡ false
    → HasNoneOf set t
    → HasNoneOf set ((key, pe) ∷ t)
unfolding find_module
HasNoneOf-add set key pe t off none_of k in_set = elim (Bool-cases (same_text k key)) [
  | inl same ↦
      let at = ap set (same_text-eq k key same) in
      let bad : true ≡ false = sym in_set ∙ at ∙ off in cc
  | inr other ↦ rw other (none_of k in_set)
]

module _ (host : Platform) (set : Text → Bool) (cyclic : IsCyclic host set)
    (load_module : LoadModule) (avoids : Avoids host set load_module) where
  link_imports-Avoids :
      (base : ℕ) (imports : List Imported) (l l' : Loader)
      → link_imports host load_module base imports l ≡ ended l'
      → HasNoneOf set l.module_table
      → (imports_some host set imports ≡ false) × HasNoneOf set l'.module_table
  unfolding link_imports
  link_imports-Avoids base [] l l' e none_of =
      (refl, subst (λ (x : Loader). HasNoneOf set x.module_table) (ended-injective l l' e) none_of)
  link_imports-Avoids base (i ∷ imports) l l' e none_of =
      let step = link_imports-ended host load_module base i imports l l' e in
      let dep = avoids i.module_name l step.0.1 step.0.0 step.2.0 none_of in
      let rest =
        link_imports-Avoids base imports (record step.0.1 { memory = step.1 }) l' step.2.1 dep.1 in
      (rw (dep.0, rest.0) refl, rest.1)

  load_new-Avoids :
      (key : Text) (l l' : Loader) (pe : Module)
      → load_new host load_module key l ≡ ended (pe, l')
      → HasNoneOf set l.module_table
      → (set key ≡ false) × HasNoneOf set l'.module_table
  load_new-Avoids key l l' pe e none_of =
      let new = load_new-ended host load_module key l l' pe e in
      let f = new.0 in
      let steps = load_pe-ended host load_module key f l new.1 pe new.2.1.0 in
      let rest =
        link_imports-Avoids steps.0 (imports_of f) (record l { space = steps.1; memory = steps.3 })
          steps.4 steps.5.0 none_of in
      let off : set key ≡ false = elim (Bool-cases (set key)) [
        | inl in_set ↦ let bad : true ≡ false = sym (cyclic key f in_set new.2.0) ∙ rest.0 in cc
        | inr off ↦ off
      ] in
      let table : l'.module_table ≡ (key, pe) ∷ steps.4.module_table =
        ap (λ (x : Loader). x.module_table)
          (new.2.1.1 ∙ ap (λ x. add_module key pe x) steps.5.1.1) in
      (
        off,
        subst (λ t. HasNoneOf set t) (sym table)
            (HasNoneOf-add set key pe steps.4.module_table off rest.1),
      )

Avoids-load_pe_module :
    (host : Platform) (set : Text → Bool) (fuel : ℕ)
    → IsCyclic host set
    → Avoids host set (load_pe_module host fuel)
unfolding load_pe_module
Avoids-load_pe_module host set zero cyclic name l l' pe e none_of = cc
Avoids-load_pe_module host set (suc fuel) cyclic name l l' pe e none_of =
    let key = module_key host name in
    elim (Option-cases (find_module key l.module_table)) [
      | inl missing ↦
          load_new-Avoids host set cyclic (load_pe_module host fuel)
            (Avoids-load_pe_module host set fuel cyclic) key l l' pe
            (sym (load_pe_module-missing host fuel name l missing) ∙ e) none_of
      | inr there ↦
          let same =
            ap (λ r. r.1)
              (ended-injective (there.0, l) (pe, l')
                (sym (load_pe_module-found host fuel name l there.0 there.1) ∙ e)) in
          (
            elim (Bool-cases (set key)) [
              | inl in_set ↦ let bad = sym (none_of key in_set) ∙ there.1 in cc
              | inr off ↦ off
            ],
            subst (λ (x : Loader). HasNoneOf set x.module_table) same none_of,
          )
    ]

-- Where every file of a set imports one of the set and no module of the set is loaded, the loading of one
-- of them never comes to an end with a module, however deep it may go.
pub load_pe_module-never_ended :
    (host : Platform) (set : Text → Bool) (fuel : ℕ) (name : Text) (l l' : Loader) (pe : Module)
    → IsCyclic host set
    → HasNoneOf set l.module_table
    → set (module_key host name) ≡ true
    → load_pe_module host fuel name l ≢ ended (pe, l')
load_pe_module-never_ended host set fuel name l l' pe cyclic none_of in_set e =
    let off = (Avoids-load_pe_module host set fuel cyclic name l l' pe e none_of).0 in
    let bad : true ≡ false = sym in_set ∙ off in cc
