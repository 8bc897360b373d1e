-- ===== src/Host/Handles/Lifetime.antt =====
-- The lives of the objects of src/uwin/handletable.cpp, over any sequence of its calls that return.
use uwin_old.Common.{ℕ, ◌+◌, ◌^◌, ◌<◌}
use uwin_old.Common.{◌≡◌, refl, arith}
use uwin_old.Common.{◌&&◌, none, some}
use uwin_old.Common.{ltb, ◌==◌, if◌then◌else◌}
use mathlib.Core.Path.{subst}
use uwin_old.Host.Handles.{
  returns, blocks, Kobj, Table, initial, find, use_count, with_lock, put, newref, delref,
}
use mathlib.Core.Path.{ap}
use mathlib.Core.Path.{sym}
use uwin_old.Common.{◌∙◌}
use uwin_old.Host.Handles.References.{find-below}
use uwin_old.Common.{Option-cases}
use uwin_old.Host.Handles.References.{use_count-erase}
use uwin_old.Common.{Bool-cases}
use uwin_old.Common.{inl}
use uwin_old.Common.{inr}
use uwin_old.Host.Handles.{get}
use uwin_old.Host.Handles.{put_dummy}
use uwin_old.Host.Handles.Calls.{
  occurrences, IsTable, result_table, put-done, newref_table, newref-done, newref-fails,
  delref_table, delref-done, delref-fails,
}
use uwin_old.Host.Handles.Calls.Kept.{
  put-IsTable, newref-IsTable, delref-IsTable, delref-shared, find-newref_table, newref_table-same,
  find-newref_table_new, use_count-newref_table,
}

-- One call that returns. The handles do not run out of their 32 bits.
pub data Step : Table → Table → Type 0 where
  puts :
      {t t' : Table} (obj : Kobj) (h : ℕ)
      → t.next_handle + 1 < 2 ^ 32
      → put t obj ≡ returns (h, t')
      → Step t t'
  refers :
      {t t' : Table} (h n : ℕ)
      → t.next_handle + 1 < 2 ^ 32
      → newref t h ≡ returns (n, t')
      → Step t t'
  drops : {t t' : Table} (h : ℕ) (r : ℕ × ℕ) → delref t h ≡ returns (r, t') → Step t t'

pub data Reach (kobjs : ℕ → Kobj) : Table → Type 0 where
  here : Reach kobjs (initial kobjs)
  next : {t t' : Table} → Reach kobjs t → Step t t' → Reach kobjs t'

Step-IsTable : {t t' : Table} → IsTable t → Step t t' → IsTable t'
Step-IsTable {t = t} i (puts obj h small e) =
    subst IsTable (ap (λ c. result_table c t) (sym (put-done t obj i.unlocked) ∙ e))
      (put-IsTable t obj i small)
Step-IsTable {t = t} i (refers h n small e) = elim (Option-cases (find h t.entries)) [
  | inl absent ↦ cc (newref-fails t h i.unlocked absent, e)
  | inr (p, found) ↦
      subst IsTable (ap (λ c. result_table c t) (sym (newref-done t h p i.unlocked found) ∙ e))
        (newref-IsTable t h p i small found)
]
Step-IsTable {t = t} i (drops h r e) = elim (Option-cases (find h t.entries)) [
  | inl absent ↦ cc (delref-fails t h i.unlocked absent, e)
  | inr (p, found) ↦
      subst IsTable (ap (λ c. result_table c t) (sym (delref-done t h p i.unlocked found) ∙ e))
        (delref-IsTable t h p i found)
]

pub Reach-IsTable : {kobjs : ℕ → Kobj} {t : Table} → Reach kobjs t → IsTable t
unfolding initial
Reach-IsTable here = record { unlocked = refl; keys = tt; below = tt; freed = λ p. ground arith }
Reach-IsTable (next r s) = Step-IsTable (Reach-IsTable r) s

-- Whatever puts, new references and dropped references have run on a new table, while handles last: an
-- object that was put is destroyed once if no handle stands for it, and not at all while one does.
pub destroyed_once :
    (kobjs : ℕ → Kobj) (t : Table) (p : ℕ)
    → Reach kobjs t
    → occurrences p t.destroyed
      ≡ (if ltb p t.next_shared && (use_count p t.entries == 0) then 1 else 0)
destroyed_once kobjs t p r = (Reach-IsTable r).freed p

-- In a reachable table, for a handle of an object and while handles last: `uw_ht_newref` gives another
-- handle; `uw_ht_delref` of the first one then reports no dummy and destroys nothing, the first handle
-- stands for nothing, and the new one stands for the object.
pub newref-delref :
    (kobjs : ℕ → Kobj) (t : Table) (h p : ℕ)
    → Reach kobjs t
    → find h t.entries ≡ some p
    → t.next_handle + 1 < 2 ^ 32
    → (n : ℕ) × (t' : Table) × (t'' : Table) × (newref t h ≡ returns (n, t'))
      × (delref t' h ≡ returns ((0, 0), t''))
      × (t''.destroyed ≡ t.destroyed)
      × (find h t''.entries ≡ none)
      × (get t'' n ≡ returns (t.kobjs p, t''))
newref-delref kobjs t h p r f small =
    let i = Reach-IsTable r in
    let t' = newref_table t p in
    let live = find-below t.next_handle t.next_shared h p t.entries i.below f in
    let more = use_count-newref_table t p i in
    let used = use_count-erase h p t.entries i.keys f in
    let same = newref_table-same t p in
    let d =
      delref-shared t' h p t.next_handle (newref-IsTable t h p i small f)
        (find-newref_table t h p (omega (arith, live.0)) ∙ f) (find-newref_table_new t p)
        (omega (arith, live.0)) (omega (arith, more, used)) in
    (
      t.next_handle,
      t',
      delref_table t' h p,
      newref-done t h p i.unlocked f,
      d.0,
      d.1 ∙ same.0,
      d.2,
      d.3 ∙ ap (λ (k : ℕ → Kobj). returns (k p, delref_table t' h p)) same.1,
    )

-- `uw_ht_put_dummy` never returns: it holds the mutex when it calls `uw_ht_put`, which waits for it.
pub put_dummy_blocks : (t : Table) (obj type_of : ℕ) → put_dummy t obj type_of ≡ blocks
unfolding put_dummy put with_lock
put_dummy_blocks t obj type_of = ground (arith, Bool-cases t.locked)
