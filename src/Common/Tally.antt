-- ===== src/Common/Tally.antt =====
-- Families indexed by the threads `0 .. n - 1`: the sum of a weight over them, and what a change at
-- one thread does to it.
use Prim.Native.Nat.{ℕ, zero, suc, ◌+◌, ◌≤◌, ◌<◌}
use mathlib.Core.Path.{◌≡◌, refl}
use mathlib.Core.Logic.{◌≢◌}
use native.Mathlib.Omega.{arith}
use native.Mathlib.Decide.{dec_lt}
use uwin_old.Common.Tests.{◌==◌, if◌then◌else◌}

abbrev pub at {ℓ} : {A : Type ℓ} → (ℕ → A) → ℕ → A → ℕ → A
at f i a j = if i == j then a else f j

pub at_other {ℓ} : {A : Type ℓ} (f : ℕ → A) (i j : ℕ) (a : A) → i ≢ j → at f i a j ≡ f j
at_other f i j a off = ground (arith, off)

pub at_self {ℓ} : {A : Type ℓ} (f : ℕ → A) (i : ℕ) (a : A) → at f i a i ≡ a
at_self f i a = ground arith

unfoldable pub tally : (ℕ → ℕ) → ℕ → ℕ
tally f zero = 0
tally f (suc n) = tally f n + f n

-- The sum depends on nothing but the terms.
pub tally-ext : (f g : ℕ → ℕ) (n : ℕ) → ((i : ℕ) → i < n → f i ≡ g i) → tally f n ≡ tally g n
unfolding tally
tally-ext f g zero h = refl
tally-ext f g (suc n) h =
    omega (arith, tally-ext f g n (λ i lt. h i (omega arith)), h n (omega arith))

-- One term, or two at different places, are at most the sum.
pub tally-le : (f : ℕ → ℕ) (n i : ℕ) → i < n → f i ≤ tally f n
unfolding tally
tally-le f zero i h = absurd (omega arith)
tally-le f (suc n) i h = elim (dec_lt i n) [
  | yes lt ↦ omega (arith, tally-le f n i lt)
  | no ge ↦ let last : i ≡ n = omega arith in rw last (omega arith)
]

tally-le_two : (f : ℕ → ℕ) (n i j : ℕ) → i < j → j < n → f i + f j ≤ tally f n
unfolding tally
tally-le_two f zero i j h lt = absurd (omega arith)
tally-le_two f (suc n) i j h lt = elim (dec_lt j n) [
  | yes below ↦ omega (arith, tally-le_two f n i j h below)
  | no ge ↦ let last : j ≡ n = omega arith in rw last (omega (arith, tally-le f n i (omega arith)))
]

-- If the sum is at most one, two places with a positive term are one place.
pub tally_unique :
    (f : ℕ → ℕ) (n i j : ℕ) → tally f n ≤ 1 → i < n → j < n → 0 < f i → 0 < f j → i ≡ j
tally_unique f n i j le hi hj pi pj = elim (dec_lt i j) [
  | yes lt ↦ absurd (omega (arith, tally-le_two f n i j lt hj))
  | no ge ↦ elim (dec_lt j i) [
    | yes lt ↦ absurd (omega (arith, tally-le_two f n j i lt hi))
    | no le' ↦ omega arith
  ]
]

-- A positive sum has a positive term.
pub tally-pos : (f : ℕ → ℕ) (n : ℕ) → 0 < tally f n → (i : ℕ) × (i < n) × (0 < f i)
unfolding tally
tally-pos f zero h = absurd (omega arith)
tally-pos f (suc n) h = elim (dec_lt 0 (f n)) [
  | yes here ↦ (n, omega arith, here)
  | no other ↦ let (i, lt, p) = tally-pos f n (omega arith) in (i, omega arith, p)
]

pub tally-zero : (f : ℕ → ℕ) (n : ℕ) → ((i : ℕ) → i < n → f i ≡ 0) → tally f n ≡ 0
unfolding tally
tally-zero f zero h = refl
tally-zero f (suc n) h =
    omega (arith, tally-zero f n (λ i lt. h i (omega arith)), h n (omega arith))

module _ {ℓ} {A : Type ℓ} (w : A → ℕ) (f : ℕ → A) (i : ℕ) (a : A) where
  tally-at_above : (n : ℕ) → n ≤ i → tally (λ j. w (at f i a j)) n ≡ tally (λ j. w (f j)) n
  unfolding tally
  tally-at_above zero h = refl
  tally-at_above (suc n) h = ground (arith, tally-at_above n)

  -- A change at one place changes the sum by the difference of the weights.
  pub tally-at :
      (n : ℕ) → i < n → tally (λ j. w (at f i a j)) n + w (f i) ≡ tally (λ j. w (f j)) n + w a
  unfolding tally
  tally-at zero h = absurd (omega arith)
  tally-at (suc n) h = elim (dec_lt i n) [
    | yes below ↦ ground (arith, tally-at n below)
    | no last ↦ ground (arith, tally-at_above n)
  ]
