-- ===== src/Kernel32/Search/Tests.antt =====
-- A search for saved games.
use uwin_old.Common.{◌≡◌, refl, ◌↔◌, arith}
use uwin_old.Common.{Bool, true, none, [], ◌∷◌}
use uwin_old.Common.{done}
use uwin_old.Ksvc.Text.{Text, strrchr, strrchr_loop, strlen, strlen_from, strcmp}
use uwin_old.Kernel32.Search.{mask_test, nostar_mask_test, Stat, Search}
use uwin_old.Kernel32.Search.Masks.{EndsIn, mask_test-EndsIn}
use uwin_old.Kernel32.Search.Listing.{IsTestable}

-- ".gm"
abbrev saved : Text
saved = b'.' ∷ b'g' ∷ b'm' ∷ []

saved-star_free : strrchr saved b'*' ≡ none
unfolding strrchr strrchr_loop
saved-star_free = refl

-- "A.GM"
abbrev game : Text
game = b'A' ∷ b'.' ∷ b'G' ∷ b'M' ∷ []

mask_test-EndsIn_example :
    (hit : Bool) × (mask_test (b'*' ∷ saved) game ≡ done hit) × ((hit ≡ true) ↔ EndsIn saved game)
mask_test-EndsIn_example =
    mask_test-EndsIn b'.' (b'g' ∷ b'm' ∷ []) game (λ e. omega arith) saved-star_free

takes_game : mask_test (b'*' ∷ saved) game ≡ done true
unfolding mask_test nostar_mask_test strrchr strrchr_loop strlen strlen_from strcmp
takes_game = refl

saved-IsTestable : IsTestable (b'*' ∷ saved)
saved-IsTestable n =
    let (hit, e, ends) =
      mask_test-EndsIn b'.' (b'g' ∷ b'm' ∷ []) n (λ z. omega arith) saved-star_free in
    (hit, e)

abbrev stat : Text → Stat
stat name = record { is_file = true; atime = 1; mtime = 2; ctime = 3; size = 4 }

abbrev search : Search
search = record { filename_mask = b'*' ∷ saved; path = b'g' ∷ []; names = (b'x' ∷ []) ∷ game ∷ [] }
