-- ===== src/Host/Handles.antt =====
-- The handle table of src/uwin/handletable.cpp: handles of the emulated program to shared objects of the
-- emulator, under one mutex.
pub mod Calls
pub mod Lifetime
pub mod References
pub mod Tests
use uwin_old.Common.{ℕ, zero, suc, ◌+◌, ◌-◌, ◌*◌, ◌/◌, ◌%◌, ◌^◌, ◌≤◌, ◌<◌, bit_and, bit_or}
use uwin_old.Common.{◌≡◌, refl, sym, ap, ap₂, ◌∙◌, fun_ext, ◌≢◌, ◌↔◌, ◌⊎◌, inl, inr, arith}
use uwin_old.Common.{
  Bool, true, false, not, ◌&&◌, ◌||◌, Option, none, some, List, [], ◌∷◌, ◌++◌, map,
}
use uwin_old.Common.{
  ltb, leb, ◌==◌, if◌then◌else◌, Bool-cases, Option-cases, length, get_elem?, set,
}
use uwin_old.Common.{
  get_or, take, drop, replicate, length-append, length-set, get_elem?-set_self, get_elem?-set_ne,
}
use uwin_old.Common.{
  Outcome, done, panic, ◌>>=◌, ◌>>◌, require, u8, u16, u32, u64, sub32, sub64, signed32,
}
use uwin_old.Common.Int.{ℤ, pos, negsuc, pos_part, neg_part, sub_ℕ, ◌+ℤ◌, ◌-ℤ◌, ◌*ℤ◌, ◌≤ℤ◌, ltb_ℤ}

-- A call returns, stops the process by an assertion or `abort`, or waits for a mutex for ever.
pub data Call {ℓ} (A : Type ℓ) : Type ℓ where
  returns : A → Call A
  stops : Call A
  blocks : Call A

-- `kobj`: a `kdummy` with its type and data, or another object of the emulator.
pub data Kobj : Type 0 where
  kdummy : (type_of data_of : ℕ) → Kobj
  other_kobj : ℕ → Kobj

-- An element of `handle_table`; the pointer that handles share is a number.
pub record Entry : Type 0 where
  pub handle : ℕ
  pub shared : ℕ

-- `mut`, `next_handle` and `handle_table`, with the objects that the shared pointers own, the next pointer,
-- and the pointers whose objects were destroyed.
pub record Table : Type 0 where
  pub locked : Bool
  pub next_handle : ℕ
  pub entries : List Entry
  pub kobjs : ℕ → Kobj
  pub next_shared : ℕ
  pub destroyed : List ℕ

pub initial : (ℕ → Kobj) → Table
initial kobjs = record {
  locked = false;
  next_handle = 0x80000000;
  entries = [];
  kobjs = kobjs;
  next_shared = 0;
  destroyed = [];
}

-- `find`
pub find : ℕ → List Entry → Option ℕ
find h [] = none
find h (e ∷ es) = let rest = find h es in if e.handle == h then some e.shared else rest

-- `erase`
pub erase : ℕ → List Entry → List Entry
erase h [] = []
erase h (e ∷ es) = let rest = erase h es in if e.handle == h then rest else e ∷ rest

-- `use_count`
pub use_count : ℕ → List Entry → ℕ
use_count p [] = 0
use_count p (e ∷ es) = let rest = use_count p es in if e.shared == p then suc rest else rest

-- `handle_table[h] = pointer`
pub assign : ℕ → ℕ → List Entry → List Entry
assign h p es = record { handle = h; shared = p } ∷ erase h es

-- What is done behind the mutex, which the call gives back at its end.
pub with_lock {ℓ} : {A : Type ℓ} → Table → (Table → Call (A × Table)) → Call (A × Table)
with_lock t f = if t.locked then blocks else elim (f (record t { locked = true })) [
  | returns r ↦ returns (r.0, record r.1 { locked = false })
  | stops ↦ stops
  | blocks ↦ blocks
]

-- `uw_ht_put`
pub put : Table → Kobj → Call (ℕ × Table)
put t obj = with_lock t (λ u. returns (
  u.next_handle,
  record u {
    next_handle = u32 (u.next_handle + 1);
    entries = assign u.next_handle u.next_shared u.entries;
    kobjs = λ p. if p == u.next_shared then obj else u.kobjs p;
    next_shared = u.next_shared + 1;
  },
))

-- `uw_ht_get`
pub get : Table → ℕ → Call (Kobj × Table)
get t h =
    with_lock t (λ u. elim (find h u.entries) [ none ↦ stops | some p ↦ returns (u.kobjs p, u) ])

-- `uw_ht_put_dummy`, which calls `uw_ht_put` behind the mutex.
pub put_dummy : Table → ℕ → ℕ → Call (ℕ × Table)
put_dummy t obj type_of = with_lock t (λ u. put u (kdummy type_of obj))

-- `uw_ht_get_dummy`
pub get_dummy : Table → ℕ → ℕ → Call (ℕ × Table)
get_dummy t h type_wanted = with_lock t (λ u. elim (find h u.entries) [
  | none ↦ stops
  | some p ↦ elim (u.kobjs p) [
    | kdummy type_of data_of ↦ if type_of == u32 type_wanted then returns (data_of, u) else stops
    | other_kobj k ↦ stops
  ]
])

-- `uw_ht_get_dummytype`
pub get_dummytype : Table → ℕ → Call (ℕ × Table)
get_dummytype t h = with_lock t (λ u. elim (find h u.entries) [
  | none ↦ stops
  | some p ↦ elim (u.kobjs p) [
    | kdummy type_of data_of ↦ returns (type_of, u)
    | other_kobj k ↦ stops
  ]
])

-- `uw_ht_newref`
pub newref : Table → ℕ → Call (ℕ × Table)
newref t h = with_lock t (λ u. elim (find h u.entries) [
  | none ↦ stops
  | some p ↦ returns (
    u.next_handle,
    record u { next_handle = u32 (u.next_handle + 1); entries = assign u.next_handle p u.entries },
  )
])

-- The type and the value that `uw_ht_delref` reports for an object.
pub report : ℕ → Kobj → ℕ × ℕ
report count (kdummy type_of data_of) = if count == 1 then (type_of, data_of) else (0, 0)
report count (other_kobj k) = (0, 0)

-- `uw_ht_delref` with both results asked for. The last handle's end destroys the object.
pub delref : Table → ℕ → Call ((ℕ × ℕ) × Table)
delref t h = with_lock t (λ u. elim (find h u.entries) [
  | none ↦ stops
  | some p ↦
      let left = erase h u.entries in
      returns (
        report (use_count p u.entries) (u.kobjs p),
        record u {
          entries = left;
          destroyed = if use_count p left == 0 then u.destroyed ++ (p ∷ []) else u.destroyed;
        },
      )
])
