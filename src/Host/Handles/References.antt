-- ===== src/Host/Handles/References.antt =====
-- The references that the handle table of src/uwin/handletable.cpp counts.
use uwin_old.Common.{ℕ, suc, ◌≤◌, ◌<◌}
use uwin_old.Common.{◌≡◌, refl, sym, ◌∙◌, ◌≢◌, inl, inr, arith}
use uwin_old.Common.{none, some, List, [], ◌∷◌}
use uwin_old.Common.{◌==◌, Bool-cases}
use uwin_old.Common.{==_iff}
use mathlib.Core.Path.{subst}
use uwin_old.Common.{==_iff}
use uwin_old.Host.Handles.{Entry, find, erase, use_count, assign}

-- No two entries have the same handle.
abbrev pub NotIn : ℕ → List Entry → Type 0
NotIn h [] = Unit
NotIn h (e ∷ es) = (e.handle ≢ h) × NotIn h es

abbrev pub HasKeys : List Entry → Type 0
HasKeys [] = Unit
HasKeys (e ∷ es) = NotIn e.handle es × HasKeys es

erase-NotIn_self : (h : ℕ) (es : List Entry) → NotIn h (erase h es)
unfolding erase
erase-NotIn_self h [] = tt
erase-NotIn_self h (e ∷ es) = ground (arith, erase-NotIn_self h es)

erase-NotIn : (h k : ℕ) (es : List Entry) → NotIn k es → NotIn k (erase h es)
unfolding erase
erase-NotIn h k [] n = tt
erase-NotIn h k (e ∷ es) n = ground (arith, n, erase-NotIn h k es)

pub erase-HasKeys : (h : ℕ) (es : List Entry) → HasKeys es → HasKeys (erase h es)
unfolding erase
erase-HasKeys h [] k = tt
erase-HasKeys h (e ∷ es) k =
    ground (arith, k, erase-HasKeys h es k.1, erase-NotIn h e.handle es k.0)

pub assign-HasKeys : (h p : ℕ) (es : List Entry) → HasKeys es → HasKeys (assign h p es)
unfolding assign
assign-HasKeys h p es k = (erase-NotIn_self h es, erase-HasKeys h es k)

pub erase-absent : (h : ℕ) (es : List Entry) → NotIn h es → erase h es ≡ es
unfolding erase
erase-absent h [] n = refl
erase-absent h (e ∷ es) n = ground (arith, n, erase-absent h es n.1)

pub find-erase_self : (h : ℕ) (es : List Entry) → find h (erase h es) ≡ none
unfolding find erase
find-erase_self h [] = refl
find-erase_self h (e ∷ es) = ground (arith, find-erase_self h es)

pub find-erase_ne : (h k : ℕ) (es : List Entry) → k ≢ h → find k (erase h es) ≡ find k es
unfolding find erase
find-erase_ne h k [] ne = refl
find-erase_ne h k (e ∷ es) ne = ground (arith, ne, find-erase_ne h k es ne)

pub find-cons_ne :
    (h : ℕ) (e : Entry) (es : List Entry) → e.handle ≢ h → find h (e ∷ es) ≡ find h es
unfolding find
find-cons_ne h e es ne = ground arith

find-cons_self :
    (h p : ℕ) (e : Entry) (es : List Entry) → e.handle ≡ h → find h (e ∷ es) ≡ some p → e.shared ≡ p
unfolding find
find-cons_self h p e es eq f = ground (arith, eq, f)

-- One handle fewer stands for the object.
pub use_count-erase :
    (h p : ℕ) (es : List Entry)
    → HasKeys es
    → find h es ≡ some p
    → use_count p es ≡ suc (use_count p (erase h es))
unfolding find erase use_count
use_count-erase h p [] k f = cc
use_count-erase h p (e ∷ es) k f = elim (Bool-cases (e.handle == h)) [
  | inl y ↦
      let at : e.handle ≡ h = (==_iff e.handle h).0 y in
      ground
        (arith, y, find-cons_self h p e es at f, erase-absent h es (subst (λ a. NotIn a es) at k.0))
  | inr n ↦
      let off : e.handle ≢ h = λ a. ground (arith, n, a) in
      ground (arith, n, use_count-erase h p es k.1 (sym (find-cons_ne h e es off) ∙ f))
]

-- The other objects keep their handles.
pub use_count-erase_ne :
    (h p q : ℕ) (es : List Entry)
    → HasKeys es
    → find h es ≡ some p
    → q ≢ p
    → use_count q (erase h es) ≡ use_count q es
unfolding find erase use_count
use_count-erase_ne h p q [] k f ne = refl
use_count-erase_ne h p q (e ∷ es) k f ne = elim (Bool-cases (e.handle == h)) [
  | inl y ↦
      let at : e.handle ≡ h = (==_iff e.handle h).0 y in
      ground (
        arith,
        y,
        ne,
        find-cons_self h p e es at f,
        erase-absent h es (subst (λ a. NotIn a es) at k.0),
      )
  | inr n ↦
      let off : e.handle ≢ h = λ a. ground (arith, n, a) in
      ground (arith, n, use_count-erase_ne h p q es k.1 (sym (find-cons_ne h e es off) ∙ f) ne)
]

-- All handles are below a bound, and all pointers are below another.
abbrev pub AllBelow : ℕ → ℕ → List Entry → Type 0
AllBelow b q [] = Unit
AllBelow b q (e ∷ es) = (e.handle < b) × (e.shared < q) × AllBelow b q es

pub AllBelow-NotIn : (b q : ℕ) (es : List Entry) → AllBelow b q es → NotIn b es
AllBelow-NotIn b q [] a = tt
AllBelow-NotIn b q (e ∷ es) a = (omega (arith, a.0), AllBelow-NotIn b q es a.2)

pub AllBelow-weaken :
    (b b' q q' : ℕ) (es : List Entry) → b ≤ b' → q ≤ q' → AllBelow b q es → AllBelow b' q' es
AllBelow-weaken b b' q q' [] le le' a = tt
AllBelow-weaken b b' q q' (e ∷ es) le le' a =
    (omega (arith, a.0), omega (arith, a.1), AllBelow-weaken b b' q q' es le le' a.2)

pub AllBelow-erase : (h b q : ℕ) (es : List Entry) → AllBelow b q es → AllBelow b q (erase h es)
unfolding erase
AllBelow-erase h b q [] a = tt
AllBelow-erase h b q (e ∷ es) a = ground (arith, a, AllBelow-erase h b q es a.2)

pub use_count-fresh : (b q : ℕ) (es : List Entry) → AllBelow b q es → use_count q es ≡ 0
unfolding use_count
use_count-fresh b q [] a = refl
use_count-fresh b q (e ∷ es) a = ground (arith, a.1, use_count-fresh b q es a.2)

pub find-below :
    (b q h p : ℕ) (es : List Entry) → AllBelow b q es → find h es ≡ some p → (h < b) × (p < q)
unfolding find
find-below b q h p [] a f = cc
find-below b q h p (e ∷ es) a f = elim (Bool-cases (e.handle == h)) [
  | inl y ↦
      let at : e.handle ≡ h = (==_iff e.handle h).0 y in
      ground (arith, a.0, a.1, at, find-cons_self h p e es at f)
  | inr n ↦ find-below b q h p es a.2 (sym (find-cons_ne h e es (λ x. ground (arith, n, x))) ∙ f)
]
