-- ===== src/Host/Handles/Calls/Kept.antt =====
-- What the calls of src/uwin/handletable.cpp keep, and what they leave of the handles.
use uwin_old.Common.{ℕ, suc, ◌+◌, ◌^◌, ◌<◌}
use uwin_old.Common.{◌≡◌, refl, arith}
use uwin_old.Common.{false, ◌&&◌, none, some, List, ◌∷◌}
use uwin_old.Common.{ltb, ◌==◌, if◌then◌else◌}
use uwin_old.Common.{u32}
use mathlib.Core.Path.{subst}
use uwin_old.Common.{==_iff}
use uwin_old.Common.{==_iff}
use uwin_old.Host.Handles.{
  returns, Kobj, Table, find, erase, use_count, assign, with_lock, report, delref,
}
use uwin_old.Host.Handles.{Entry}
use uwin_old.Host.Handles.References.{erase-HasKeys}
use uwin_old.Host.Handles.References.{use_count-fresh}
use mathlib.Core.Path.{ap}
use mathlib.Core.Path.{sym}
use uwin_old.Host.Handles.References.{AllBelow-erase}
use uwin_old.Host.Handles.References.{AllBelow-NotIn}
use uwin_old.Host.Handles.References.{erase-absent}
use uwin_old.Host.Handles.References.{AllBelow-weaken}
use uwin_old.Common.{◌∙◌}
use uwin_old.Host.Handles.References.{find-below}
use uwin_old.Host.Handles.References.{use_count-erase}
use uwin_old.Common.{Bool-cases}
use uwin_old.Common.{inl}
use uwin_old.Common.{inr}
use uwin_old.Common.{◌≢◌}
use uwin_old.Host.Handles.References.{use_count-erase_ne}
use uwin_old.Host.Handles.{get}
use uwin_old.Host.Handles.{kdummy}
use uwin_old.Host.Handles.References.{find-cons_ne}
use uwin_old.Host.Handles.References.{find-erase_self}
use uwin_old.Host.Handles.{other_kobj}
use uwin_old.Host.Handles.References.{find-erase_ne}
use uwin_old.Host.Handles.References.{HasKeys, AllBelow}
use uwin_old.Host.Handles.Calls.{occurrences-append}
use uwin_old.Common.{◌++◌}
use uwin_old.Common.{[]}
use uwin_old.Host.Handles.Calls.{
  occurrences, IsTable, put_table, newref_table, delref_table, delref-done,
}

assign-fresh :
    (b q p : ℕ) (es : List Entry)
    → AllBelow b q es
    → assign b p es ≡ record { handle = b; shared = p } ∷ es
unfolding assign
assign-fresh b q p es a =
    ap (λ l. record { handle = b; shared = p } ∷ l) (erase-absent b es (AllBelow-NotIn b q es a))

pub put-IsTable :
    (t : Table) (obj : Kobj) → IsTable t → t.next_handle + 1 < 2 ^ 32 → IsTable (put_table t obj)
unfolding put_table use_count
put-IsTable t obj i small =
    let fresh = assign-fresh t.next_handle t.next_shared t.next_shared t.entries i.below in
    let none_yet = use_count-fresh t.next_handle t.next_shared t.entries i.below in
    let entry : Entry = record { handle = t.next_handle; shared = t.next_shared } in
    record {
      unlocked = refl;
      keys =
          subst HasKeys (sym fresh)
            (AllBelow-NotIn t.next_handle t.next_shared t.entries i.below, i.keys);
      below = subst (AllBelow (u32 (t.next_handle + 1)) (t.next_shared + 1)) (sym fresh) (
        omega arith,
        omega arith,
        AllBelow-weaken t.next_handle (u32 (t.next_handle + 1)) t.next_shared (t.next_shared + 1)
            t.entries (omega arith) (omega arith) i.below,
      );
      freed = λ p. rw fresh (ground (arith, i.freed p, none_yet));
    }

pub newref-IsTable :
    (t : Table) (h p : ℕ)
    → IsTable t
    → t.next_handle + 1 < 2 ^ 32
    → find h t.entries ≡ some p
    → IsTable (newref_table t p)
unfolding newref_table use_count
newref-IsTable t h p i small f =
    let fresh = assign-fresh t.next_handle t.next_shared p t.entries i.below in
    let live = find-below t.next_handle t.next_shared h p t.entries i.below f in
    let used = use_count-erase h p t.entries i.keys f in
    record {
      unlocked = refl;
      keys =
          subst HasKeys (sym fresh)
            (AllBelow-NotIn t.next_handle t.next_shared t.entries i.below, i.keys);
      below = subst (AllBelow (u32 (t.next_handle + 1)) t.next_shared) (sym fresh) (
        omega arith,
        live.1,
        AllBelow-weaken t.next_handle (u32 (t.next_handle + 1)) t.next_shared t.next_shared
            t.entries (omega arith) (omega arith) i.below,
      );
      freed = λ q. rw fresh (elim (Bool-cases (p == q)) [
        | inl y ↦
            let at : p ≡ q = (==_iff p q).0 y in
            let count : use_count q t.entries ≡ suc (use_count q (erase h t.entries)) =
              subst (λ x. use_count x t.entries ≡ suc (use_count x (erase h t.entries))) at used in
            ground (arith, i.freed q, y, count)
        | inr n ↦ ground (arith, i.freed q, n)
      ]);
    }

pub delref-IsTable :
    (t : Table) (h p : ℕ) → IsTable t → find h t.entries ≡ some p → IsTable (delref_table t h p)
unfolding delref_table
delref-IsTable t h p i f = record {
  unlocked = refl;
  keys = erase-HasKeys h t.entries i.keys;
  below = AllBelow-erase h t.next_handle t.next_shared t.entries i.below;
  freed = λ q.
      let live = find-below t.next_handle t.next_shared h p t.entries i.below f in
      let fewer = use_count-erase h p t.entries i.keys f in
      elim (Bool-cases (p == q)) [
        | inl y ↦
            let at : p ≡ q = (==_iff p q).0 y in
            subst
              (λ x.
                occurrences x (delref_table t h p).destroyed
                ≡ (if ltb x t.next_shared && (use_count x (erase h t.entries) == 0) then 1 else 0))
              at (ground (arith, occurrences-append p p t.destroyed, i.freed p, fewer, live.1))
        | inr n ↦
            let off : q ≢ p = λ e. ground (arith, n, e) in
            ground (
              arith,
              occurrences-append q p t.destroyed,
              i.freed q,
              n,
              use_count-erase_ne h p q t.entries i.keys f off,
            )
      ];
}

-- A handle that is still there after `uw_ht_newref`.
pub find-newref_table :
    (t : Table) (h p : ℕ) → h ≢ t.next_handle → find h (newref_table t p).entries ≡ find h t.entries
unfolding newref_table assign
find-newref_table t h p ne =
    find-cons_ne h (record { handle = t.next_handle; shared = p }) (erase t.next_handle t.entries)
      (λ e. ne (sym e))
    ∙ find-erase_ne t.next_handle h t.entries ne

pub find-newref_table_new :
    (t : Table) (p : ℕ) → find t.next_handle (newref_table t p).entries ≡ some p
unfolding newref_table assign find
find-newref_table_new t p = ground arith

pub use_count-newref_table :
    (t : Table) (p : ℕ)
    → IsTable t
    → use_count p (newref_table t p).entries ≡ suc (use_count p t.entries)
unfolding newref_table use_count
use_count-newref_table t p i =
    rw (assign-fresh t.next_handle t.next_shared p t.entries i.below) (ground arith)

pub report-shared : (count : ℕ) (k : Kobj) → count ≢ 1 → report count k ≡ (0, 0)
unfolding report
report-shared count (kdummy type_of data_of) ne = ground arith
report-shared count (other_kobj k) ne = refl

pub get-done :
    (t : Table) (h p : ℕ)
    → t.locked ≡ false
    → find h t.entries ≡ some p
    → get t h ≡ returns (t.kobjs p, record t { locked = false })
unfolding get with_lock
get-done t h p u f = rw (u, f) refl

-- A dropped reference that is not the last one.
pub delref-shared :
    (t : Table) (h p n : ℕ)
    → IsTable t
    → find h t.entries ≡ some p
    → find n t.entries ≡ some p
    → n ≢ h
    → 1 < use_count p t.entries
    → (delref t h ≡ returns ((0, 0), delref_table t h p))
      × ((delref_table t h p).destroyed ≡ t.destroyed)
      × (find h (delref_table t h p).entries ≡ none)
      × (get (delref_table t h p) n ≡ returns (t.kobjs p, delref_table t h p))
unfolding delref_table
delref-shared t h p n i f g ne more = (
  delref-done t h p i.unlocked f
      ∙ ap (λ r. returns (r, delref_table t h p))
          (report-shared (use_count p t.entries) (t.kobjs p) (omega arith)),
  ground (arith, use_count-erase h p t.entries i.keys f),
  find-erase_self h t.entries,
  get-done (delref_table t h p) n p refl (find-erase_ne h n t.entries ne ∙ g),
)

pub newref_table-same :
    (t : Table) (p : ℕ)
    → ((newref_table t p).destroyed ≡ t.destroyed)
      × ((newref_table t p).kobjs ≡ t.kobjs)
      × ((newref_table t p).next_handle ≡ u32 (t.next_handle + 1))
unfolding newref_table
newref_table-same t p = (refl, refl, refl)

pub delref_table-same : (t : Table) (h p : ℕ) → (delref_table t h p).kobjs ≡ t.kobjs
unfolding delref_table
delref_table-same t h p = refl

pub use_count-delref_table :
    (t : Table) (h p : ℕ)
    → IsTable t
    → find h t.entries ≡ some p
    → use_count p t.entries ≡ suc (use_count p (delref_table t h p).entries)
unfolding delref_table
use_count-delref_table t h p i f = use_count-erase h p t.entries i.keys f

pub find-delref_table :
    (t : Table) (h p n : ℕ) → n ≢ h → find n (delref_table t h p).entries ≡ find n t.entries
unfolding delref_table
find-delref_table t h p n ne = find-erase_ne h n t.entries ne

pub report-other : (count k : ℕ) → report count (other_kobj k) ≡ (0, 0)
unfolding report
report-other count k = refl

pub destroyed-delref_table :
    (t : Table) (h p : ℕ)
    → use_count p (delref_table t h p).entries ≡ 0
    → (delref_table t h p).destroyed ≡ t.destroyed ++ (p ∷ [])
unfolding delref_table
destroyed-delref_table t h p none_left = rw none_left refl

pub handle-old : (t : Table) (h p : ℕ) → IsTable t → find h t.entries ≡ some p → h ≢ t.next_handle
handle-old t h p i f =
    let live = find-below t.next_handle t.next_shared h p t.entries i.below f in
    omega (arith, live.0)
