-- ===== src/Ksvc/Text.antt =====
-- The string functions of src/uwin/target_dlls/KSVC/libc.c.
-- A `const char *` is the list of the bytes up to the terminating zero, which is not in the list:
-- `*s` is `deref s`, and `s++` goes to the tail. A pointer that is returned into its argument is
-- the rest of the list from there on.
pub mod Compare
pub mod Scan
mod Tests
use uwin_old.Common.{ℕ, zero, suc, ◌+◌, ◌-◌, ◌%◌, ◌^◌, ◌<◌, Bool, true, false, ltb, leb, ◌==◌}
use uwin_old.Common.{if◌then◌else◌, ◌&&◌, ◌||◌, not, List, [], ◌∷◌, Option, none, some, ◌++◌}
use uwin_old.Common.{u8}
use uwin_old.Common.Int.{ℤ, pos, sub_ℕ}

abbrev pub Text : Type 0
Text = List ℕ

-- What the bytes before a terminator are: none is zero.
abbrev pub IsText : Text → Type 0
IsText [] = Unit
IsText (c ∷ s) = (0 < c) × (c < 2 ^ 8) × IsText s

abbrev pub deref : Text → ℕ
deref [] = 0
deref (c ∷ s) = c

abbrev pub next : Text → Text
next [] = []
next (c ∷ s) = s

unfoldable pub strlen_from : ℕ → Text → ℕ
strlen_from r [] = r
strlen_from r (c ∷ s) = strlen_from (r + 1) s

unfoldable pub strlen : Text → ℕ
unfolding strlen_from
strlen s = strlen_from 0 s

unfoldable pub strcmp : Text → Text → ℤ
strcmp [] t = sub_ℕ 0 (deref t)
strcmp (c ∷ s) t = if not (c == 0) && c == deref t then strcmp s (next t) else sub_ℕ c (deref t)

abbrev pub isspace : ℕ → Bool
isspace c = c == b' ' || c == 9

abbrev pub tolower : ℕ → ℕ
tolower c = if leb b'A' c && leb c b'Z' then b'a' + c - b'A' else c

-- The loop of `stricmp`: `*p1++ == '\0'` breaks when the left text has ended.
pub stricmp_loop : Text → Text → ℤ
stricmp_loop [] t = sub_ℕ (tolower 0) (tolower (deref t))
stricmp_loop (c ∷ s) t =
    if tolower c == tolower (deref t)
    then if c == 0 then pos 0 else stricmp_loop s (next t)
    else sub_ℕ (tolower c) (tolower (deref t))

-- `same` says that the two pointers are equal.
pub stricmp : Bool → Text → Text → ℤ
stricmp same s t = if same then pos 0 else stricmp_loop s t

-- `none` is NULL. Looking for zero finds the terminator.
pub strchr_loop : ℕ → Text → Option Text
strchr_loop ch [] = if 0 == ch then some [] else none
strchr_loop ch (c ∷ s) = if c == ch then some (c ∷ s) else strchr_loop ch s

pub strchr : Text → ℕ → Option Text
strchr s c = strchr_loop (u8 c) s

unfoldable pub strrchr_loop : ℕ → Option Text → Text → Option Text
strrchr_loop ch save [] = if 0 == ch then some [] else save
strrchr_loop ch save (c ∷ s) = strrchr_loop ch (if c == ch then some (c ∷ s) else save) s

unfoldable pub strrchr : Text → ℕ → Option Text
strrchr s c = strrchr_loop (u8 c) none s
