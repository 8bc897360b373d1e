-- ===== src/Kernel32/Handles.antt =====
-- `DuplicateHandle` and `CloseHandle` of src/uwin/target_dlls/KERNEL32/kernel32.c over the handle table.
use uwin_old.Common.{ℕ, zero, suc, ◌+◌, ◌-◌, ◌*◌, ◌/◌, ◌%◌, ◌^◌, ◌≤◌, ◌<◌, bit_and, bit_or}
use uwin_old.Common.{◌≡◌, refl, sym, ap, ap₂, ◌∙◌, fun_ext, ◌≢◌, ◌↔◌, ◌⊎◌, inl, inr, arith}
use uwin_old.Common.{
  Bool, true, false, not, ◌&&◌, ◌||◌, Option, none, some, List, [], ◌∷◌, ◌++◌, map,
}
use uwin_old.Common.{
  ltb, leb, ◌==◌, if◌then◌else◌, Bool-cases, Option-cases, length, get_elem?, set,
}
use uwin_old.Common.{
  get_or, take, drop, replicate, length-append, length-set, get_elem?-set_self, get_elem?-set_ne,
}
use uwin_old.Common.{
  Outcome, done, panic, ◌>>=◌, ◌>>◌, require, u8, u16, u32, u64, sub32, sub64, signed32,
}
use uwin_old.Common.Int.{ℤ, pos, negsuc, pos_part, neg_part, sub_ℕ, ◌+ℤ◌, ◌-ℤ◌, ◌*ℤ◌, ◌≤ℤ◌, ltb_ℤ}
use uwin_old.Host.Handles.{
  Call, returns, stops, blocks, Kobj, kdummy, other_kobj, Entry, Table, find, use_count, get,
  newref, delref,
}
pub mod Duplicates
mod Tests

-- KHT_DUMMY_EVENT
abbrev pub kht_dummy_event : ℕ
kht_dummy_event = 2

-- `DuplicateHandle`: `current` is the handle of the process. A panic stops the process.
pub duplicate_handle : ℕ → Table → ℕ → ℕ → ℕ → ℕ → Call (ℕ × Table)
duplicate_handle current t source_process source target_process options =
    if not (source_process == target_process) || not (source_process == current)
    then stops
    else if not (bit_and options 1 == 0)
    then stops
    else newref t source

-- What `CloseHandle` does with the dummy that `kht_delref` reports.
abbrev pub free_dummy : Call ((ℕ × ℕ) × Table) → Call (Option ℕ × Table)
free_dummy (returns r) =
    if r.0.0 == 0
    then returns (none, r.1)
    else if r.0.0 == kht_dummy_event
    then returns (some r.0.1, r.1)
    else stops
free_dummy stops = stops
free_dummy blocks = blocks

-- `CloseHandle`: the event that it frees, if any.
pub close_handle : Table → ℕ → Call (Option ℕ × Table)
close_handle t h = free_dummy (delref t h)
