-- ===== src/Host/Handles/Calls.antt =====
-- What the calls of src/uwin/handletable.cpp do behind a free mutex, and what they keep.
pub mod Kept
use uwin_old.Common.{ℕ, suc, ◌+◌, ◌^◌, ◌<◌}
use uwin_old.Common.{◌≡◌, refl, arith}
use uwin_old.Common.{false, ◌&&◌, none, some, List, [], ◌∷◌, ◌++◌}
use uwin_old.Common.{ltb, ◌==◌, if◌then◌else◌}
use uwin_old.Common.{u32}
use mathlib.Core.Path.{subst}
use uwin_old.Common.{==_iff}
use uwin_old.Common.{==_iff}
use uwin_old.Host.Handles.{
  Call, returns, stops, blocks, Kobj, Table, find, erase, use_count, assign, with_lock, put, newref,
  report, delref,
}
use uwin_old.Host.Handles.{Entry}
use uwin_old.Host.Handles.References.{erase-HasKeys}
use uwin_old.Host.Handles.References.{use_count-fresh}
use mathlib.Core.Path.{ap}
use mathlib.Core.Path.{sym}
use uwin_old.Host.Handles.References.{AllBelow-erase}
use uwin_old.Host.Handles.References.{AllBelow-NotIn}
use uwin_old.Host.Handles.References.{erase-absent}
use uwin_old.Host.Handles.References.{AllBelow-weaken}
use uwin_old.Common.{◌∙◌}
use uwin_old.Host.Handles.References.{find-below}
use uwin_old.Host.Handles.References.{use_count-erase}
use uwin_old.Common.{Bool-cases}
use uwin_old.Common.{inl}
use uwin_old.Common.{inr}
use uwin_old.Common.{◌≢◌}
use uwin_old.Host.Handles.References.{use_count-erase_ne}
use uwin_old.Host.Handles.{get}
use uwin_old.Host.Handles.{kdummy}
use uwin_old.Host.Handles.References.{find-cons_ne}
use uwin_old.Host.Handles.References.{find-erase_self}
use uwin_old.Host.Handles.{other_kobj}
use uwin_old.Host.Handles.References.{find-erase_ne}
use uwin_old.Host.Handles.References.{HasKeys, AllBelow}

-- How often a number is in a list.
abbrev pub occurrences : ℕ → List ℕ → ℕ
occurrences p [] = 0
occurrences p (x ∷ xs) = if x == p then suc (occurrences p xs) else occurrences p xs

occurrences-append :
    (p q : ℕ) (xs : List ℕ)
    → occurrences p (xs ++ (q ∷ [])) ≡ occurrences p xs + (if q == p then 1 else 0)
occurrences-append p q [] = ground arith
occurrences-append p q (x ∷ xs) = ground (arith, occurrences-append p q xs)

-- What holds between calls.
pub record IsTable (t : Table) : Type 0 where
  pub unlocked : t.locked ≡ false
  pub keys : HasKeys t.entries
  pub below : AllBelow t.next_handle t.next_shared t.entries
  pub freed :
      (p : ℕ)
      → occurrences p t.destroyed
        ≡ (if ltb p t.next_shared && (use_count p t.entries == 0) then 1 else 0)

-- A call that returns runs to its end behind the free mutex.
abbrev pub result_table : {A : Type 0} → Call (A × Table) → Table → Table
result_table (returns r) d = r.1
result_table stops d = d
result_table blocks d = d

-- The tables that the calls leave.
pub put_table : Table → Kobj → Table
put_table t obj = record t {
  locked = false;
  next_handle = u32 (t.next_handle + 1);
  entries = assign t.next_handle t.next_shared t.entries;
  kobjs = λ p. if p == t.next_shared then obj else t.kobjs p;
  next_shared = t.next_shared + 1;
}

pub put-done :
    (t : Table) (obj : Kobj)
    → t.locked ≡ false
    → put t obj ≡ returns (t.next_handle, put_table t obj)
unfolding put with_lock put_table
put-done t obj u = rw u refl

pub newref_table : Table → ℕ → Table
newref_table t p = record t {
  locked = false;
  next_handle = u32 (t.next_handle + 1);
  entries = assign t.next_handle p t.entries;
}

pub newref-done :
    (t : Table) (h p : ℕ)
    → t.locked ≡ false
    → find h t.entries ≡ some p
    → newref t h ≡ returns (t.next_handle, newref_table t p)
unfolding newref with_lock newref_table
newref-done t h p u f = rw (u, f) refl

pub newref-fails :
    (t : Table) (h : ℕ) → t.locked ≡ false → find h t.entries ≡ none → newref t h ≡ stops
unfolding newref with_lock
newref-fails t h u f = rw (u, f) refl

pub delref_table : Table → ℕ → ℕ → Table
delref_table t h p = record t {
  locked = false;
  entries = erase h t.entries;
  destroyed = if use_count p (erase h t.entries) == 0 then t.destroyed ++ (p ∷ []) else t.destroyed;
}

pub delref-done :
    (t : Table) (h p : ℕ)
    → t.locked ≡ false
    → find h t.entries ≡ some p
    → delref t h ≡ returns (report (use_count p t.entries) (t.kobjs p), delref_table t h p)
unfolding delref with_lock delref_table
delref-done t h p u f = rw (u, f) refl

pub delref-fails :
    (t : Table) (h : ℕ) → t.locked ≡ false → find h t.entries ≡ none → delref t h ≡ stops
unfolding delref with_lock
delref-fails t h u f = rw (u, f) refl
