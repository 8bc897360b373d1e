-- ===== src/Common/Links.antt =====
-- Linked lists through a function that gives the next address; address 0 ends a list.
use uwin_old.Common.Tests.{◌==◌, if◌then◌else◌}
use Prim.Native.Nat.{ℕ}
use mathlib.Core.Path.{◌≡◌, refl, sym}
use mathlib.Core.Logic.{◌≢◌}
use mathlib.Core.List.{List, [], ◌∷◌, ◌++◌}
use native.Mathlib.Omega.{arith}

-- The list that starts at `p` runs through the addresses `xs`.
abbrev pub Linked : (ℕ → ℕ) → ℕ → List ℕ → Type 0
Linked next p [] = p ≡ 0
Linked next p (x ∷ xs) = (p ≡ x) × (x ≢ 0) × Linked next (next x) xs

abbrev pub Outside : ℕ → List ℕ → Type 0
Outside a [] = Unit
Outside a (x ∷ xs) = (x ≢ a) × Outside a xs

abbrev pub AllDistinct : List ℕ → Type 0
AllDistinct [] = Unit
AllDistinct (x ∷ xs) = Outside x xs × AllDistinct xs

abbrev pub last_of : ℕ → List ℕ → ℕ
last_of x [] = x
last_of x (y ∷ ys) = last_of y ys

pub Outside-last : (a y : ℕ) (ys : List ℕ) → Outside a (y ∷ ys) → last_of y ys ≢ a
Outside-last a y [] off = off.0
Outside-last a y (z ∷ ys) off = Outside-last a z ys off.1

pub Outside-append : (a p : ℕ) (xs : List ℕ) → Outside a xs → p ≢ a → Outside a (xs ++ (p ∷ []))
Outside-append a p [] off ne = (ne, tt)
Outside-append a p (x ∷ xs) off ne = (off.0, Outside-append a p xs off.1 ne)

pub AllDistinct-append :
    (p : ℕ) (xs : List ℕ) → AllDistinct xs → Outside p xs → AllDistinct (xs ++ (p ∷ []))
AllDistinct-append p [] u off = (tt, tt)
AllDistinct-append p (x ∷ xs) u off =
    (Outside-append x p xs u.0 (λ e. off.0 (sym e)), AllDistinct-append p xs u.1 off.1)

pub last_of-append : (x p : ℕ) (xs : List ℕ) → last_of x (xs ++ (p ∷ [])) ≡ p
last_of-append x p [] = refl
last_of-append x p (y ∷ xs) = last_of-append y p xs

-- A new last address `p` behind the last one, with the other links as before.
pub Linked-append :
    (next next' : ℕ → ℕ) (x p : ℕ) (ys : List ℕ)
    → Linked next (next x) ys
    → AllDistinct (x ∷ ys)
    → Outside p (x ∷ ys)
    → p ≢ 0
    → ((q : ℕ) → next' q ≡ (if q == p then 0 else if q == last_of x ys then p else next q))
    → Linked next' (next' x) (ys ++ (p ∷ []))
Linked-append next next' x p [] c u off ne r = (ground (arith, r x), ne, ground (arith, r p))
Linked-append next next' x p (y ∷ ys) c u off ne r = (
  ground (arith, r x, Outside-last x y ys u.0),
  c.1,
  Linked-append next next' y p ys c.2 u.1 off.1 ne r,
)

-- The last address of a list is not 0.
pub Linked-last : (next : ℕ → ℕ) (p x : ℕ) (xs : List ℕ) → Linked next p (x ∷ xs) → last_of x xs ≢ 0
Linked-last next p x [] l = l.1
Linked-last next p x (y ∷ ys) l = Linked-last next (next x) y ys l.2
