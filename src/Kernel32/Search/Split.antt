-- ===== src/Kernel32/Search/Split.antt =====
-- How `FindFirstFileA` (src/uwin/target_dlls/KERNEL32/kernel32.c) splits a name.
use uwin_old.Common.{ℕ, zero, suc, ◌+◌, ◌<◌}
use uwin_old.Common.{◌≡◌, refl, arith}
use uwin_old.Common.{true, false, [], ◌∷◌, ◌++◌}
use uwin_old.Common.{◌==◌, if◌then◌else◌, length}
use uwin_old.Common.{last_index, last_index-at, get_or, drop, length-append}
use uwin_old.Ksvc.Text.{Text, strlen}
use uwin_old.Ksvc.Text.Scan.{strlen-length}
use uwin_old.Common.{take-append}
use uwin_old.Common.{last_index}
use uwin_old.Common.{last_index-at}
use uwin_old.Kernel32.Search.{at_end, is_separator, last_separator, split_name, parts_at}

abbrev pub NoSeparator : Text → Type 0
NoSeparator [] = Unit
NoSeparator (c ∷ s) = (is_separator c ≡ false) × NoSeparator s

get_or-NoSeparator : (s : Text) (i : ℕ) → NoSeparator s → is_separator (get_or s i 0) ≡ false
get_or-NoSeparator [] i h = refl
get_or-NoSeparator (c ∷ s) zero h = h.0
get_or-NoSeparator (c ∷ s) (suc i) h = get_or-NoSeparator s i h.1

behind_separator :
    (dir file : Text) (sep i : ℕ)
    → NoSeparator file
    → length dir < i
    → is_separator (get_or (dir ++ (sep ∷ file)) i 0) ≡ false
behind_separator [] file sep zero h lt = absurd (omega arith)
behind_separator [] file sep (suc i) h lt = get_or-NoSeparator file i h
behind_separator (x ∷ dir) file sep zero h lt = absurd (omega arith)
behind_separator (x ∷ dir) file sep (suc i) h lt = behind_separator dir file sep i h (omega arith)

at_separator : (dir file : Text) (sep : ℕ) → get_or (dir ++ (sep ∷ file)) (length dir) 0 ≡ sep
at_separator [] file sep = refl
at_separator (x ∷ dir) file sep = at_separator dir file sep

drop_behind : (dir file : Text) (sep : ℕ) → drop (suc (length dir)) (dir ++ (sep ∷ file)) ≡ file
drop_behind [] file sep = refl
drop_behind (x ∷ dir) file sep = drop_behind dir file sep

-- A name is split at its last separator, and the separator is in neither part; with nothing before
-- it, the path is the current directory, also for a name at the root.
pub split_name_lem :
    (dir file : Text) (sep : ℕ)
    → is_separator sep ≡ true
    → NoSeparator file
    → split_name (dir ++ (sep ∷ file)) ≡ (if at_end dir then b'.' ∷ [] else dir, file)
unfolding split_name last_separator
split_name_lem dir file sep is h =
    let name = dir ++ (sep ∷ file) in
    let whole : length name ≡ length dir + suc (length file) = length-append dir (sep ∷ file) in
    let at : last_index (λ i. is_separator (get_or name i 0)) (strlen name) ≡ length dir =
      last_index-at (λ i. is_separator (get_or name i 0)) (length dir) (strlen name)
        (λ positive. rw (at_separator dir file sep) is)
        (λ i lt le. behind_separator dir file sep i h lt) (omega (arith, strlen-length name)) in
    rw at (parts dir)
  where
    parts :
        (d : Text)
        → parts_at (length d) (d ++ (sep ∷ file)) ≡ (if at_end d then b'.' ∷ [] else d, file)
    parts [] = rw is refl
    parts (x ∷ d) =
        let nonempty : (length (x ∷ d) == 0) ≡ false = ground arith in
        let one_more : length (x ∷ d) + 1 ≡ suc (length (x ∷ d)) = omega arith in
        rw (nonempty, one_more, take-append (x ∷ d) (sep ∷ file), drop_behind (x ∷ d) file sep) refl
