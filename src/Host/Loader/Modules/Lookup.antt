-- ===== src/Host/Loader/Modules/Lookup.antt =====
-- A module that src/uwin/ldr.cpp has loaded is found again.
use uwin_old.Common.{ℕ, zero, suc}
use uwin_old.Common.{◌≡◌, refl, sym, ap, ◌∙◌, inl, inr}
use uwin_old.Common.{some, List, ◌∷◌}
use uwin_old.Common.{Option-cases}
use uwin_old.Ksvc.Text.{Text}
use uwin_old.Common.Texts.{same_text_refl}
use uwin_old.Host.Loader.Runs.{ended}
use uwin_old.Host.Loader.Exports.{Module}
use uwin_old.Host.Loader.Modules.{Platform, Loader, find_module, module_key}
use uwin_old.Host.Loader.Modules.Load.{load_pe_module}
use uwin_old.Host.Loader.Modules.Steps.{
  ended-injective, load_new-ended, load_pe_module-found, load_pe_module-missing,
}

find_module-add :
    (key : Text) (pe : Module) (t : List (Text × Module))
    → find_module key ((key, pe) ∷ t) ≡ some pe
unfolding find_module
find_module-add key pe t = rw (same_text_refl key) refl

-- A module that was loaded stands in the table under its key.
find_module-load_pe_module :
    (host : Platform) (fuel : ℕ) (name : Text) (l l' : Loader) (pe : Module)
    → load_pe_module host fuel name l ≡ ended (pe, l')
    → find_module (module_key host name) l'.module_table ≡ some pe
unfolding load_pe_module
find_module-load_pe_module host zero name l l' pe e = cc
find_module-load_pe_module host (suc fuel) name l l' pe e =
    let key = module_key host name in
    elim (Option-cases (find_module key l.module_table)) [
      | inl missing ↦
          let new =
            load_new-ended host (load_pe_module host fuel) key l l' pe
              (sym (load_pe_module-missing host fuel name l missing) ∙ e) in
          ap (λ (x : Loader). find_module key x.module_table) new.2.1.1
          ∙ find_module-add key pe new.1.module_table
      | inr there ↦
          let pair =
            ended-injective (there.0, l) (pe, l')
              (sym (load_pe_module-found host fuel name l there.0 there.1) ∙ e) in
          ap (λ (r : Module × Loader). find_module key r.1.module_table) (sym pair)
          ∙ there.1
          ∙ ap (λ (r : Module × Loader). some r.0) pair
    ]

-- A module that is loaded is loaded once: the next `load_pe_module` with a name that has the same key, its
-- part behind the last slash in lower case, gives the same module and changes nothing.
pub load_pe_module-once :
    (host : Platform) (fuel again : ℕ) (name next : Text) (l l' : Loader) (pe : Module)
    → load_pe_module host fuel name l ≡ ended (pe, l')
    → module_key host next ≡ module_key host name
    → load_pe_module host (suc again) next l' ≡ ended (pe, l')
load_pe_module-once host fuel again name next l l' pe e same =
    load_pe_module-found host again next l' pe (
      ap (λ key. find_module key l'.module_table) same
      ∙ find_module-load_pe_module host fuel name l l' pe e)
