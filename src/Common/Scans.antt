-- ===== src/Common/Scans.antt =====
-- Backward scans: `while (i > 0 && !test(i)) i--;`.
use Prim.Native.Nat.{ℕ, zero, suc, ◌≤◌, ◌<◌}
use mathlib.Core.Path.{◌≡◌}
use mathlib.Core.Logic.{◌≢◌}
use mathlib.Core.Bool.{Bool, true, false}
use native.Mathlib.Omega.{arith}
use native.Mathlib.Decide.{dec_lt}
use uwin_old.Common.Tests.{if◌then◌else◌}

-- The greatest position up to a bound that passes the test; position 0 is not tested.
unfoldable pub last_index : (ℕ → Bool) → ℕ → ℕ
last_index test zero = zero
last_index test (suc i) = let before = last_index test i in if test (suc i) then suc i else before

pub last_index-at :
    (test : ℕ → Bool) (n l : ℕ)
    → (n ≢ 0 → test n ≡ true)
    → ((i : ℕ) → n < i → i ≤ l → test i ≡ false)
    → n ≤ l
    → last_index test l ≡ n
unfolding last_index
last_index-at test n zero here after le = omega arith
last_index-at test n (suc l) here after le = elim (dec_lt n (suc l)) [
  | yes lt ↦
      rw (after (suc l) lt (omega arith))
        (last_index-at test n l here (λ i above below. after i above (omega arith)) (omega arith))
  | no ge ↦
      let same : n ≡ suc l = omega arith in
      let found : test (suc l) ≡ true = rw same at (here (λ e. omega arith)) in
      rw found (omega arith)
]
