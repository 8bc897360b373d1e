-- ===== src/Host/Loader/Runs.antt =====
-- What becomes of a part of src/uwin/ldr.cpp that loops: it ends, it stops the process, or it does not end
-- within the rounds that it is given.
use uwin_old.Common.{◌≡◌, refl}
use uwin_old.Common.{Outcome, done, panic}

pub data Run {ℓ} (A : Type ℓ) : Type ℓ where
  ended : A → Run A
  aborted : Run A
  unfinished : Run A

infixl 5 ◌>>>◌
abbrev pub ◌>>>◌ {ℓ κ} : {A : Type ℓ} {B : Type κ} → Run A → (A → Run B) → Run B
ended a >>> f = f a
aborted >>> f = aborted
unfinished >>> f = unfinished

-- A step whose failed assertions stop the process.
abbrev pub run {ℓ} : {A : Type ℓ} → Outcome A → Run A
run (done a) = ended a
run panic = aborted

-- What a chain that ended went through.
pub then-ended {ℓ κ} :
    {A : Type ℓ} {B : Type κ} (m : Run A) (f : A → Run B) (b : B)
    → (m >>> f) ≡ ended b
    → (a : A) × ((m ≡ ended a) × (f a ≡ ended b))
then-ended (ended a) f b e = (a, (refl, e))
then-ended aborted f b e = cc
then-ended unfinished f b e = cc

-- The rounds were enough.
abbrev pub Finishes {ℓ} : {A : Type ℓ} → Run A → Type 0
Finishes (ended a) = Unit {0}
Finishes aborted = Unit {0}
Finishes unfinished = ⊥

pub Finishes-then {ℓ κ} :
    {A : Type ℓ} {B : Type κ} (m : Run A) (f : A → Run B)
    → Finishes m
    → ((a : A) → Finishes (f a))
    → Finishes (m >>> f)
Finishes-then (ended a) f first rest = rest a
Finishes-then aborted f first rest = tt
Finishes-then unfinished f first rest = absurd first

pub Finishes-run {ℓ} : {A : Type ℓ} (o : Outcome A) → Finishes (run o)
Finishes-run (done a) = tt
Finishes-run panic = tt
