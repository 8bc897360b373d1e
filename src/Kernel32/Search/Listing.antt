-- ===== src/Kernel32/Search/Listing.antt =====
-- Which files `FindFirstFileA` and `FindNextFileA` (src/uwin/target_dlls/KERNEL32/kernel32.c) report, and
-- how a name is split.
use uwin_old.Common.{◌≡◌, refl, ap}
use uwin_old.Common.{Bool, true, false, Option, none, some, List, [], ◌∷◌, ◌++◌}
use uwin_old.Common.{done}
use uwin_old.Ksvc.Text.{Text}
use uwin_old.Kernel32.Search.{
  mask_test, Stat, FindData, Search, find_data, read_dir, find_next_file,
}

-- No name is taken by the mask.
abbrev pub Skipped : Text → List Text → Type 0
Skipped mask [] = Unit
Skipped mask (n ∷ ns) = (mask_test mask n ≡ done false) × Skipped mask ns

-- The mask is one that the code can test.
abbrev pub IsTestable : Text → Type 0
IsTestable mask = (n : Text) → (hit : Bool) × (mask_test mask n ≡ done hit)

-- What a search answers on the names `ns`: the first that the mask takes, with those behind it left,
-- or that it takes none.
abbrev pub Answers : (Text → Stat) → Text → Text → List Text → Option FindData × List Text → Type 0
Answers stat mask path ns (none, left) = Skipped mask ns × (left ≡ [])
Answers stat mask path ns (some f, left) =
    (before : List Text) × (n : Text) × (ns ≡ before ++ (n ∷ left))
    × Skipped mask before
    × (mask_test mask n ≡ done true)
    × (f ≡ find_data stat path n)

Answers-cons :
    (stat : Text → Stat) (mask path n : Text) (ns : List Text) (a : Option FindData × List Text)
    → mask_test mask n ≡ done false
    → Answers stat mask path ns a
    → Answers stat mask path (n ∷ ns) a
Answers-cons stat mask path n ns (none, left) miss a = ((miss, a.0), a.1)
Answers-cons stat mask path n ns (some f, left) miss (before, m, splits, skipped, hit, is) =
    (n ∷ before, m, ap (λ l. n ∷ l) splits, (miss, skipped), hit, is)

read_dir-Answers :
    (stat : Text → Stat) (mask path : Text) (ns : List Text)
    → IsTestable mask
    → (a : Option FindData × List Text) × (read_dir stat mask path ns ≡ done a)
      × Answers stat mask path ns a
unfolding read_dir
read_dir-Answers stat mask path [] ok = ((none, []), refl, (tt, refl))
read_dir-Answers stat mask path (n ∷ ns) ok = tested (ok n) (read_dir-Answers stat mask path ns ok)
  where
    Answered : List Text → Type 0
    Answered l =
        (a : Option FindData × List Text) × (read_dir stat mask path l ≡ done a)
        × Answers stat mask path l a

    tested : (hit : Bool) × (mask_test mask n ≡ done hit) → Answered ns → Answered (n ∷ ns)
    tested (true, hit) rest =
        ((some (find_data stat path n), ns), rw hit refl, ([], n, refl, tt, hit, refl))
    tested (false, miss) (a, e, answers) =
        (a, rw (miss, e) refl, Answers-cons stat mask path n ns a miss answers)

-- With a mask that the code can test, `FindNextFileA` reports the first name left that the mask
-- takes, with what is known of that file, and goes on behind it; it reports nothing only if the mask
-- takes none of the names left.
pub find_next_file-Answers :
    (stat : Text → Stat) (s : Search)
    → IsTestable s.filename_mask
    → (found : Option FindData × Search) × (find_next_file stat s ≡ done found)
      × (found.1.filename_mask ≡ s.filename_mask)
      × (found.1.path ≡ s.path)
      × Answers stat s.filename_mask s.path s.names (found.0, found.1.names)
unfolding find_next_file
find_next_file-Answers stat s ok =
    let (a, e, answers) = read_dir-Answers stat s.filename_mask s.path s.names ok in
    ((a.0, record s { names = a.1 }), rw e refl, refl, refl, answers)
