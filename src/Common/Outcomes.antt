-- ===== src/Common/Outcomes.antt =====
-- What a handler of the emulated DLLs does: it returns, or it calls `kpanic` or `kpanicf`
-- (src/uwin/target_dlls/KSVC/ksvc.c), which never come back.
use mathlib.Core.Bool.{Bool, true, false}
use mathlib.Core.Path.{◌≡◌, refl, ap}

pub data Outcome {ℓ} (A : Type ℓ) : Type ℓ where
  done : A → Outcome A
  panic : Outcome A

infixl 5 ◌>>=◌ ◌>>◌
abbrev pub ◌>>=◌ {ℓ κ} : {A : Type ℓ} {B : Type κ} → Outcome A → (A → Outcome B) → Outcome B
done a >>= f = f a
panic >>= f = panic

abbrev pub ◌>>◌ {ℓ} : {B : Type ℓ} → Outcome (Unit {0}) → Outcome B → Outcome B
m >> k = m >>= λ _. k

-- What a chain that returned went through.
pub then-done {ℓ κ} :
    {A : Type ℓ} {B : Type κ} (m : Outcome A) (f : A → Outcome B) (b : B)
    → (m >>= f) ≡ done b
    → (a : A) × ((m ≡ done a) × (f a ≡ done b))
then-done (done a) f b e = (a, (refl, e))
then-done panic f b e = cc

-- `if (!b) goto bad;`, where the label `bad` panics.
abbrev pub require : Bool → Outcome (Unit {0})
require true = done tt
require false = panic

module _ {ℓ} {A : Type ℓ} where
  abbrev pub get_done : Outcome A → A → A
  get_done (done a) d = a
  get_done panic d = d

  -- What a guarded result shows: the guard held.
  pub require-eq-done : (b : Bool) (x y : A) → (require b >> done x) ≡ done y → (b ≡ true) × (x ≡ y)
  require-eq-done true x y e = (refl, ap (λ o. get_done o x) e)
  require-eq-done false x y e = cc
