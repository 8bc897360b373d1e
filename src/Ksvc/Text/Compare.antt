-- ===== src/Ksvc/Text/Compare.antt =====
-- `strcmp` and `stricmp` against the lexicographic order of the bytes.
use uwin_old.Common.{ℕ}
use uwin_old.Common.{◌≡◌, refl, sym, arith}
use uwin_old.Common.{Bool, true, false, [], ◌∷◌, map}
use uwin_old.Common.Int.{ℤ, pos, negsuc}
use uwin_old.Ksvc.Text.{Text, IsText, strcmp}
use uwin_old.Ksvc.Text.{stricmp}
use uwin_old.Ksvc.Text.{stricmp_loop}
use uwin_old.Ksvc.Text.{tolower}
use Prim.Native.Nat.{compare, Ordering}

-- The sign of a result of `strcmp`.
pub data Sign : Type 0 where
  below equal above : Sign

abbrev pub sign : ℤ → Sign
sign (negsuc n) = below
sign (pos n) = elim n [ ℕ.zero ↦ equal | _ ↦ above ]

-- The lexicographic order: a proper prefix is smaller.
abbrev pub order : Text → Text → Sign
order [] [] = equal
order [] (d ∷ t) = below
order (c ∷ s) [] = above
order (c ∷ s) (d ∷ t) = elim (compare c d) [
  | Ordering.lt ↦ below
  | Ordering.gt ↦ above
  | Ordering.eq ↦ order s t
]

-- The sign of `strcmp` is the lexicographic order of the two texts as unsigned bytes.
pub sign-strcmp : (s t : Text) → IsText s → IsText t → sign (strcmp s t) ≡ order s t
unfolding strcmp
sign-strcmp [] [] hs ht = ground arith
sign-strcmp [] (d ∷ t) hs ht = ground arith
sign-strcmp (c ∷ s) [] hs ht = ground arith
sign-strcmp (c ∷ s) (d ∷ t) hs ht = ground (arith, sign-strcmp s t hs.2 ht.2)

abbrev pub fold_case : Text → Text
fold_case = map tolower

stricmp_loop-order :
    (s t : Text) → IsText s → IsText t → sign (stricmp_loop s t) ≡ order (fold_case s) (fold_case t)
unfolding stricmp_loop
stricmp_loop-order [] [] hs ht = ground arith
stricmp_loop-order [] (d ∷ t) hs ht = ground arith
stricmp_loop-order (c ∷ s) [] hs ht = ground arith
stricmp_loop-order (c ∷ s) (d ∷ t) hs ht = ground (arith, stricmp_loop-order s t hs.2 ht.2)

order_self : (s : Text) → order s s ≡ equal
order_self [] = refl
order_self (c ∷ s) = ground (arith, order_self s)

-- The sign of `stricmp` is the lexicographic order of the texts with their ASCII letters in lower
-- case, and equal pointers, which must be to one text, compare equal.
pub sign-stricmp :
    (same : Bool) (s t : Text)
    → IsText s
    → IsText t
    → (same ≡ true → s ≡ t)
    → sign (stricmp same s t) ≡ order (fold_case s) (fold_case t)
unfolding stricmp
sign-stricmp true s t hs ht one = rw (one refl) (sym (order_self (fold_case t)))
sign-stricmp false s t hs ht one = stricmp_loop-order s t hs ht
