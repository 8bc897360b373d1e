-- ===== src/Ksvc/Text/Tests.antt =====
-- Searches and comparisons of concrete texts.
use uwin_old.Common.{◌≡◌, refl}
use uwin_old.Common.{false, none, some, [], ◌∷◌}
use uwin_old.Ksvc.Text.{
  Text, strcmp, stricmp, stricmp_loop, strchr, strchr_loop, strrchr, strrchr_loop,
}
use uwin_old.Ksvc.Text.Compare.{sign, below, equal}

abbrev ab : Text
ab = b'a' ∷ b'B' ∷ []

abbrev abc : Text
abc = b'a' ∷ b'b' ∷ b'C' ∷ []

compared : (sign (strcmp ab abc) ≡ below) × (sign (stricmp false abc abc) ≡ equal)
unfolding strcmp stricmp stricmp_loop
compared = (refl, refl)

searched : (strchr abc b'b' ≡ some (b'b' ∷ b'C' ∷ [])) × (strrchr abc b'z' ≡ none)
unfolding strchr strchr_loop strrchr strrchr_loop
searched = (refl, refl)
