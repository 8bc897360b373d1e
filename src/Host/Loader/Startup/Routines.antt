-- ===== src/Host/Loader/Startup/Routines.antt =====
-- The routines that the process of src/uwin/ldr.cpp runs at its start.
use uwin_old.Common.{ℕ, zero, suc}
use uwin_old.Common.{◌≡◌, refl, sym, ap, ◌∙◌}
use uwin_old.Common.{Bool, true, false, not, Option, none, some, List, [], ◌∷◌, ◌++◌}
use uwin_old.Common.{◌==◌}
use uwin_old.Common.{require, Outcome, done, panic, ◌+◌, ◌^◌, ◌≤◌, ◌<◌, length, arith}
use uwin_old.Host.MemoryMap.{address_space}
use uwin_old.Host.MemoryMap.Regions.{map_dynamic-base, map_dynamic-address}
use uwin_old.Host.Loader.Modules.Images.{write_bytes}
use uwin_old.Host.Loader.Modules.Bytes.{write_bytes-below}
use uwin_old.Host.Loader.Startup.{write_routines}
use uwin_old.Host.Loader.Startup.Listed.{
  IsListed, list_size, IsListed-same, write_routines-IsListed, align_up-ge, length-erase_last,
}
use mathlib.Core.Path.{subst}
use uwin_old.Ksvc.Text.{Text}
use uwin_old.Host.Loader.Runs.{Run, ended, ◌>>>◌, run, then-ended}
use uwin_old.Host.MemoryMap.{Space, prot_rw, map_dynamic}
use uwin_old.Host.Loader.Exports.{Module}
use uwin_old.Host.Loader.Modules.{PeFile, Platform, Loader, find_module, module_key}
use uwin_old.Host.Loader.Modules.Images.{align_up}
use uwin_old.Host.Loader.Modules.Load.{load_pe_module, init_routine, file_of}
use uwin_old.Host.Loader.Modules.Order.{ModuleTable, IsOrdered, load_pe_module-IsOrdered}
use uwin_old.Host.Loader.Modules.Steps.{ended-injective, load_new-ended, load_pe_module-missing}
use uwin_old.Host.Loader.Startup.{
  erase_last, routines_size, line_size, process_of, init_dll, Process, put_process, prepare,
}

erase_last-append : (rs : List (ℕ × ℕ)) (r : ℕ × ℕ) → erase_last (rs ++ (r ∷ [])) ≡ rs
erase_last-append [] r = refl
erase_last-append (x ∷ []) r = refl
erase_last-append (x ∷ y ∷ rs) r = ap (λ t. x ∷ t) (erase_last-append (y ∷ rs) r)

checked : (b : Bool) (u : Unit {0}) → run (require (not b)) ≡ ended u → b ≡ false
checked true u e = cc
checked false u e = refl

run-ended : {A : Type 0} (o : Outcome A) (a : A) → run o ≡ ended a → o ≡ done a
run-ended (done x) a e = ap (λ y. done y) (ended-injective x a e)
run-ended panic a e = cc

-- What `put_process` went through: the two mappings and the check of the entry point.
put_process-ended :
    (host : Platform) (name : Text) (exec init : Module) (l : Loader) (p : Process)
    → put_process host name exec init l ≡ ended p
    → (list : ℕ × Space) × (line : ℕ × Space) × ((map_dynamic host.page_size l.space
            (align_up (routines_size l) host.page_size)
            prot_rw
          ≡ done list)
        × (map_dynamic host.page_size list.1 (align_up (line_size name) host.page_size) prot_rw
            ≡ done line)
        × (process_of name exec init l list line ≡ p)
        × ((init.entry_point == 0) ≡ false))
unfolding put_process
put_process-ended host name exec init l p e =
    let page = host.page_size in
    let check = run (require (not (init.entry_point == 0))) in
    let at_line : Space → Outcome (ℕ × Space) =
      λ s. map_dynamic page s (align_up (line_size name) page) prot_rw in
    let at_list = map_dynamic page l.space (align_up (routines_size l) page) prot_rw in
    let first =
      then-ended (run at_list)
        (λ list.
          run (at_line list.1)
          >>> (λ at. check >>> (λ checked. ended (process_of name exec init l list at))))
        p e in
    let second =
      then-ended (run (at_line first.0.1))
        (λ at. check >>> (λ checked. ended (process_of name exec init l first.0 at))) p first.1.1 in
    let third =
      then-ended check (λ checked. ended (process_of name exec init l first.0 second.0)) p
        second.1.1 in
    (
      first.0,
      second.0,
      (
        run-ended at_list first.0 first.1.0,
        run-ended (at_line first.0.1) second.0 second.1.0,
        ended-injective _ p third.1.1,
        checked (init.entry_point == 0) third.0 third.1.0,
      ),
    )

-- The list that `put_process` writes is still there behind it: the command line is put above it.
put_process-IsListed :
    (host : Platform) (name : Text) (exec init : Module) (l : Loader) (p : Process)
    → put_process host name exec init l ≡ ended p
    → 0 < host.page_size
    → p.library_init_list ≤ address_space
    → list_size (p.loader.library_init_routines) + host.page_size < 2 ^ 31
    → IsListed p.loader.memory p.library_init_list (erase_last l.library_init_routines)
put_process-IsListed host name exec init l p e some_page in_space few =
    let (list, line, (at_list, at_line, is, entry)) = put_process-ended host name exec init l p e in
    let rs = erase_last l.library_init_routines in
    let shorter = length-erase_last l.library_init_routines in
    let base : p.library_init_list ≡ list.0 = ap (λ (q : Process). q.library_init_list) (sym is) in
    let all : p.loader.library_init_routines ≡ l.library_init_routines =
      ap (λ (q : Process). q.loader.library_init_routines) (sym is) in
    let same = ap length all in
    let page = host.page_size in
    let room = align_up-ge (routines_size l) page some_page (omega arith) in
    let first = map_dynamic-address page l.space _ prot_rw list.0 list.1 at_list in
    let second = map_dynamic-address page list.1 _ prot_rw line.0 line.1 at_line in
    let (at, up, rest, prot) =
      map_dynamic-base page l.space (align_up (routines_size l) page) prot_rw list.0 list.1 room.1
        (omega arith) at_list in
    let above : list.0 + list_size rs ≤ line.0 = omega arith in
    let memory = write_routines list.0 rs l.memory in
    let kept =
      IsListed-same memory (write_bytes line.0 (name ++ (0 ∷ [])) memory) list.0 rs
        (λ b lo hi. sym (write_bytes-below line.0 (name ++ (0 ∷ [])) memory b (omega arith)))
        (write_routines-IsListed list.0 rs l.memory) in
    subst (λ (q : Process). IsListed q.loader.memory q.library_init_list rs) is kept

-- The process that `prepare` made: the executable was loaded, then init.dll, and the rest went on from there.
prepare-ended :
    (host : Platform) (fuel : ℕ) (name : Text) (l l₁ : Loader) (exec : Module) (p : Process)
    → load_pe_module host fuel name l ≡ ended (exec, l₁)
    → prepare host fuel name l ≡ ended p
    → (init : Module) × (l₂ : Loader) × ((load_pe_module host fuel init_dll l₁ ≡ ended (init, l₂))
        × (put_process host name exec init l₂ ≡ ended p))
unfolding prepare
prepare-ended host fuel name l l₁ exec p loaded e =
    let rest : Run Process =
      load_pe_module host fuel init_dll l₁ >>> (λ init. put_process host name exec init.0 init.1) in
    let at : rest ≡ ended p =
      ap
        (λ r. r >>> (λ exec.
          load_pe_module host fuel init_dll exec.1
          >>> (λ init. put_process host name exec.0 init.0 init.1)))
        (sym loaded)
      ∙ e in
    let last =
      then-ended (load_pe_module host fuel init_dll l₁)
        (λ init. put_process host name exec init.0 init.1) p at in
    (last.0.0, last.0.1, last.1)

abbrev chosen : PeFile → Option PeFile → PeFile
chosen f (some g) = g
chosen f none = f

-- The newest module of the tables is one with a routine, and its routine is the last.
IsOrdered-newest :
    (host : Platform) (key : Text) (pe : Module) (f : PeFile) (t : ModuleTable) (rs : List (ℕ × ℕ))
    → file_of host key ≡ some f
    → f.is_dll ≡ true
    → (pe.entry_point == 0) ≡ false
    → IsOrdered host ((key, pe) ∷ t) rs
    → IsOrdered host t (erase_last rs)
IsOrdered-newest host key pe f t rs file dll entry ordered =
    let f' = ordered.0 in
    let same : f ≡ f' = ap (λ o. chosen f o) (sym file ∙ ordered.2.0) in
    let dll' : f'.is_dll ≡ true = ap (λ (x : PeFile). x.is_dll) (sym same) ∙ dll in
    let single : init_routine f' pe ≡ (pe.image_base, pe.entry_point) ∷ [] =
      rw (dll', entry) refl in
    let routines : rs ≡ ordered.1 ++ ((pe.image_base, pe.entry_point) ∷ []) =
      ordered.2.1.1.0 ∙ ap (λ r. ordered.1 ++ r) single in
    subst (λ r. IsOrdered host t r)
      (sym (ap erase_last routines ∙ erase_last-append ordered.1 (pe.image_base, pe.entry_point)))
      ordered.2.1.1.1

-- A module that was not in the table is the newest when it is loaded.
newest :
    (host : Platform) (fuel : ℕ) (name : Text) (l l' : Loader) (pe : Module)
    → load_pe_module host fuel name l ≡ ended (pe, l')
    → find_module (module_key host name) l.module_table ≡ none
    → (t : ModuleTable) × (l'.module_table ≡ (module_key host name, pe) ∷ t)
unfolding load_pe_module
newest host zero name l l' pe e missing = cc
newest host (suc fuel) name l l' pe e missing =
    let key = module_key host name in
    let new =
      load_new-ended host (load_pe_module host fuel) key l l' pe
        (sym (load_pe_module-missing host fuel name l missing) ∙ e) in
    (new.1.module_table, ap (λ (x : Loader). x.module_table) new.2.1.1)

-- Where the executable does not import init.dll itself and init.dll's file is a DLL, memory has a list of
-- routines at the process's `library_init_list`, ended by a pair of zeros: those of every module but
-- init.dll, which is the newest, in order, each routine behind those of the modules that its own imports.
-- The list lies in the address space, pages have a size, and the routines of all modules, with a pair of
-- zeros and a page more, take less than 2^31 bytes.
pub prepare-IsOrdered :
    (host : Platform) (fuel : ℕ) (name : Text) (l l₁ : Loader) (exec : Module) (f : PeFile)
    (p : Process)
    → IsOrdered host l.module_table l.library_init_routines
    → load_pe_module host fuel name l ≡ ended (exec, l₁)
    → find_module (module_key host init_dll) l₁.module_table ≡ none
    → file_of host (module_key host init_dll) ≡ some f
    → f.is_dll ≡ true
    → prepare host fuel name l ≡ ended p
    → 0 < host.page_size
    → p.library_init_list ≤ address_space
    → list_size p.loader.library_init_routines + host.page_size < 2 ^ 31
    → (init : Module) × (t : ModuleTable) × (rs : List (ℕ × ℕ)) × ((p.loader.module_table
          ≡ (module_key host init_dll, init) ∷ t)
        × IsListed p.loader.memory p.library_init_list rs
        × IsOrdered host t rs)
prepare-IsOrdered host fuel name l l₁ exec f p ordered loaded missing file dll e some_page in_space
      few =
    let steps = prepare-ended host fuel name l l₁ exec p loaded e in
    let init = steps.0 in
    let l₂ = steps.1 in
    let (list, line, (at_list, at_line, is, entry)) =
      put_process-ended host name exec init l₂ p steps.2.1 in
    let top = newest host fuel init_dll l₁ l₂ init steps.2.0 missing in
    let first = load_pe_module-IsOrdered host fuel name l l₁ exec loaded ordered in
    let second = load_pe_module-IsOrdered host fuel init_dll l₁ l₂ init steps.2.0 first in
    let all = subst (λ t. IsOrdered host t l₂.library_init_routines) top.1 second in
    (
      init,
      top.0,
      erase_last l₂.library_init_routines,
      (
        ap (λ (q : Process). q.loader.module_table) (sym is) ∙ top.1,
        put_process-IsListed host name exec init l₂ p steps.2.1 some_page in_space few,
        IsOrdered-newest host (module_key host init_dll) init f top.0 l₂.library_init_routines file
            dll entry all,
      ),
    )
