-- ===== src/Kernel32/Handles/Duplicates.antt =====
-- Duplicated handles in src/uwin/target_dlls/KERNEL32/kernel32.c.
use uwin_old.Common.{ℕ, ◌+◌, ◌^◌, ◌<◌, bit_and}
use uwin_old.Common.{◌≡◌, sym, ap, ap₂, ◌∙◌, arith}
use uwin_old.Common.{none, some, [], ◌∷◌, ◌++◌}
use uwin_old.Host.Handles.{returns, Kobj, other_kobj, Table, find, use_count, delref, report}
use uwin_old.Host.Handles.Calls.{IsTable, newref_table, newref-done, delref_table, delref-done}
use uwin_old.Host.Handles.Calls.Kept.{
  newref-IsTable, delref-IsTable, delref-shared, find-newref_table, find-newref_table_new,
  newref_table-same, use_count-newref_table, delref_table-same, use_count-delref_table,
  find-delref_table, report-other, destroyed-delref_table, handle-old,
}
use uwin_old.Host.Handles.Lifetime.{Reach, Reach-IsTable}
use uwin_old.Kernel32.Handles.{duplicate_handle, free_dummy, close_handle}

close_handle-none :
    (t t' : Table) (h : ℕ)
    → delref t h ≡ returns ((0, 0), t')
    → close_handle t h ≡ returns (none, t')
unfolding close_handle
close_handle-none t t' h d = ap free_dummy d

-- The last handle of an object that is no dummy: the object is destroyed.
close_handle-last :
    (t : Table) (h p k : ℕ)
    → IsTable t
    → find h t.entries ≡ some p
    → use_count p t.entries ≡ 1
    → t.kobjs p ≡ other_kobj k
    → (close_handle t h ≡ returns (none, delref_table t h p))
      × ((delref_table t h p).destroyed ≡ t.destroyed ++ (p ∷ []))
close_handle-last t h p k i f one obj = (
  close_handle-none t (delref_table t h p) h (
      delref-done t h p i.unlocked f
      ∙ ap₂ (λ (c : ℕ) (o : Kobj). returns (report c o, delref_table t h p)) one obj
      ∙ ap (λ x. returns (x, delref_table t h p)) (report-other 1 k)),
  destroyed-delref_table t h p (omega (arith, use_count-delref_table t h p i f, one)),
)

-- In a reachable table, for the only handle of an object that is no dummy, a thread's for example, while
-- handles last: `DuplicateHandle` within the process and without DUPLICATE_CLOSE_SOURCE gives a new
-- handle; closing the first one then destroys nothing and leaves the new one to the object, and
-- closing the new one destroys the object.
pub duplicate-close :
    (kobjs : ℕ → Kobj) (t : Table) (current options h p k : ℕ)
    → Reach kobjs t
    → find h t.entries ≡ some p
    → use_count p t.entries ≡ 1
    → t.kobjs p ≡ other_kobj k
    → t.next_handle + 1 < 2 ^ 32
    → bit_and options 1 ≡ 0
    → (n : ℕ) × (t₁ : Table) × (t₂ : Table) × (t₃ : Table) × (duplicate_handle current t current h
          current options
        ≡ returns (n, t₁))
      × (close_handle t₁ h ≡ returns (none, t₂))
      × (find n t₂.entries ≡ some p)
      × (t₂.destroyed ≡ t.destroyed)
      × (close_handle t₂ n ≡ returns (none, t₃))
      × (t₃.destroyed ≡ t.destroyed ++ (p ∷ []))
unfolding duplicate_handle
duplicate-close kobjs t current options h p k r f one obj small flags =
    let i = Reach-IsTable r in
    let n = t.next_handle in
    let u = newref_table t p in
    let j = newref-IsTable t h p i small f in
    let off = handle-old t h p i f in
    let g = find-newref_table t h p off ∙ f in
    let g' = find-newref_table_new t p in
    let v = delref_table u h p in
    let l = delref-IsTable u h p j g in
    let same = newref_table-same t p in
    let d =
      delref-shared u h p n j g g' (λ x. off (sym x))
        (omega (arith, use_count-newref_table t p i, one)) in
    let alive = find-delref_table u h p n (λ x. off (sym x)) ∙ g' in
    let last =
      close_handle-last v n p k l alive
        (omega (arith, use_count-delref_table u h p j g, use_count-newref_table t p i, one))
        (ap (λ (m : ℕ → Kobj). m p) (delref_table-same u h p ∙ same.1) ∙ obj) in
    (
      n,
      u,
      v,
      delref_table v n p,
      ground (arith, newref-done t h p i.unlocked f, flags),
      close_handle-none u v h d.0,
      alive,
      d.1 ∙ same.0,
      last.0,
      last.1 ∙ ap (λ x. x ++ (p ∷ [])) (d.1 ∙ same.0),
    )
