-- ===== src/Ksvc/Text/Scan.antt =====
-- What `strlen`, `strchr` and `strrchr` find.
use uwin_old.Common.{ℕ, zero, suc, ◌+◌, ◌<◌}
use uwin_old.Common.{◌≡◌, refl, ap, ◌≢◌, ◌⊎◌, inl, inr, arith}
use uwin_old.Common.{false, Option, none, some, [], ◌∷◌, ◌++◌}
use uwin_old.Common.{◌==◌, if◌then◌else◌, Bool-cases, length}
use uwin_old.Common.{u8}
use uwin_old.Ksvc.Text.{Text, strlen_from, strlen, strchr_loop, strchr, strrchr_loop, strrchr}
use uwin_old.Ksvc.Text.{next, deref}

strlen_from-length : (r : ℕ) (s : Text) → strlen_from r s ≡ r + length s
unfolding strlen_from
strlen_from-length r [] = omega arith
strlen_from-length r (c ∷ s) = omega (arith, strlen_from-length (r + 1) s)

pub strlen-length : (s : Text) → strlen s ≡ length s
unfolding strlen
strlen-length s = omega (arith, strlen_from-length 0 s)

-- No byte of `s` is `c`.
abbrev pub Avoids : ℕ → Text → Type 0
Avoids c [] = Unit
Avoids c (d ∷ s) = (d ≢ c) × Avoids c s

-- `r` is what `s` has left at its first `c`; for zero that is the terminator.
pub record IsFirst (c : ℕ) (s r : Text) : Type 0 where
  pub before : Text
  pub splits : s ≡ before ++ r
  pub found : deref r ≡ c
  pub first : Avoids c before

-- `r` is what `s` has left at its last `c`.
pub record IsLast (c : ℕ) (s r : Text) : Type 0 where
  pub before : Text
  pub splits : s ≡ before ++ r
  pub found : deref r ≡ c
  pub last : Avoids c (next r)

-- What a search returns: NULL if the byte is not in the text and is not its terminator, and
-- otherwise a place `P` speaks of.
abbrev pub Finds : (Text → Text → Type 0) → ℕ → Text → Option Text → Type 0
Finds P c s none = (0 < c) × Avoids c s
Finds P c s (some r) = P s r

strchr_loop-Finds : (c : ℕ) (s : Text) → Finds (IsFirst c) c s (strchr_loop c s)
unfolding strchr_loop
strchr_loop-Finds zero [] = record { before = []; splits = refl; found = refl; first = tt }
strchr_loop-Finds (suc c) [] =
    let misses : (0 == suc c) ≡ false = ground arith in rw misses (omega arith, tt)
strchr_loop-Finds c (d ∷ s) = elim (Bool-cases (d == c)) [
  | inl here ↦ rw here (record { before = []; splits = refl; found = ground arith; first = tt })
  | inr other ↦ rw other (Finds-cons c s d (ground arith) (strchr_loop c s) (strchr_loop-Finds c s))
]
  where
    Finds-cons :
        (c : ℕ) (s : Text) (d : ℕ)
        → d ≢ c
        → (o : Option Text) → Finds (IsFirst c) c s o
        → Finds (IsFirst c) c (d ∷ s) o
    Finds-cons c s d ne none h = (h.0, (ne, h.1))
    Finds-cons c s d ne (some r) h = record {
      before = d ∷ h.before;
      splits = ap (λ t. d ∷ t) h.splits;
      found = h.found;
      first = (ne, h.first);
    }

-- `strchr` finds the first byte that is the low byte of its argument, and the terminator for zero;
-- it returns NULL only if there is none.
pub strchr-Finds : (s : Text) (c : ℕ) → Finds (IsFirst (u8 c)) (u8 c) s (strchr s c)
unfolding strchr
strchr-Finds s c = strchr_loop-Finds (u8 c) s

-- The loop of `strrchr` returns the last place in the text, or else what it had saved before.
strrchr_loop-cases :
    (c : ℕ) (save : Option Text) (s : Text)
    → ((r : Text) × (strrchr_loop c save s ≡ some r) × IsLast c s r)
      ⊎ ((0 < c) × Avoids c s × (strrchr_loop c save s ≡ save))
unfolding strrchr_loop
strrchr_loop-cases zero save [] =
    inl ([], refl, record { before = []; splits = refl; found = refl; last = tt })
strrchr_loop-cases (suc c) save [] = inr (omega arith, tt, ground arith)
strrchr_loop-cases c save (d ∷ s) =
    elim (strrchr_loop-cases c (if d == c then some (d ∷ s) else save) s) [
      | inl (r, e, h) ↦ inl (
        r,
        e,
        record {
          before = d ∷ h.before;
          splits = ap (λ t. d ∷ t) h.splits;
          found = h.found;
          last = h.last;
        },
      )
      | inr (positive, none_left, e) ↦ elim (Bool-cases (d == c)) [
        | inl here ↦ inl (
          d ∷ s,
          ground arith,
          record { before = []; splits = refl; found = ground arith; last = none_left },
        )
        | inr other ↦ inr (positive, (ground arith, none_left), ground arith)
      ]
    ]

-- `strrchr` finds the last byte that is the low byte of its argument, and the terminator for zero;
-- it returns NULL only if there is none.
pub strrchr-Finds : (s : Text) (c : ℕ) → Finds (IsLast (u8 c)) (u8 c) s (strrchr s c)
unfolding strrchr
strrchr-Finds s c = elim (strrchr_loop-cases (u8 c) none s) [
  | inl (r, e, h) ↦ rw e h
  | inr (positive, none_left, e) ↦ rw e (positive, none_left)
]
