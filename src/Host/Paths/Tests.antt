-- ===== src/Host/Paths/Tests.antt =====
-- Names of saved games.
use uwin_old.Common.{◌≡◌, refl, ◌⊎◌}
use uwin_old.Common.{true, ◌||◌, none, some, List, [], ◌∷◌, ◌++◌}
use uwin_old.Common.{◌==◌, if◌then◌else◌}
use uwin_old.Common.{get_or}
use uwin_old.Common.{done, panic}
use uwin_old.Ksvc.Text.{Text}
use uwin_old.Host.Paths.{
  guest_prog_path, absolute, normalize, add_component, parent, slash_before, target_realpath,
  strip_prefix, translate_path,
}
use uwin_old.Host.Paths.Directories.{AreNames, path_of, slashed}
use uwin_old.Host.Paths.Resolve.{target_of, target_realpath_lem}
use uwin_old.Common.{last_index}
use uwin_old.Host.Paths.Confine.{program, translate_path_confined}

-- "games\\..\\.\\maps\\a"
abbrev up_and_down : Text
up_and_down = b'g' ∷ b'\\' ∷ b'.' ∷ b'.' ∷ b'\\' ∷ b'.' ∷ b'\\' ∷ b'm' ∷ b'\\' ∷ b'a' ∷ []

-- "/h"
abbrev base : Text
base = b'/' ∷ b'h' ∷ []

up_and_down-target :
    target_of guest_prog_path up_and_down ≡ program ∷ (b'm' ∷ []) ∷ (b'a' ∷ []) ∷ []
unfolding absolute
up_and_down-target = refl

-- The same path, by the loop of the code.
up_and_down-realpath :
    target_realpath guest_prog_path up_and_down
    ≡ done (path_of (program ∷ (b'm' ∷ []) ∷ (b'a' ∷ []) ∷ []))
unfolding target_realpath absolute normalize add_component parent slash_before last_index
up_and_down-realpath = refl

on_c :
    (get_or (absolute guest_prog_path up_and_down) 0 0 == b'C'
      || get_or (absolute guest_prog_path up_and_down) 0 0 == b'c')
    ≡ true
unfolding absolute
on_c = refl

target_realpath_lem_example :
    (target_realpath guest_prog_path up_and_down ≡ (
      if get_or (absolute guest_prog_path up_and_down) 0 0 == b'C'
        || get_or (absolute guest_prog_path up_and_down) 0 0 == b'c'
      then done (path_of (target_of guest_prog_path up_and_down))
      else panic))
    × AreNames (target_of guest_prog_path up_and_down)
target_realpath_lem_example = target_realpath_lem guest_prog_path up_and_down

translate_path_confined_example :
    (translate_path base guest_prog_path up_and_down ≡ done none)
    ⊎ ((extra : Text) × (es : List Text) × (target_of guest_prog_path up_and_down
          ≡ (program ++ extra) ∷ es)
        × AreNames es
        × (translate_path base guest_prog_path up_and_down
            ≡ done (some (base ++ (extra ++ slashed es)))))
translate_path_confined_example = translate_path_confined base guest_prog_path up_and_down on_c

-- "C:/HOMM3X/a": a directory beside that of the program is mapped beside that of the host.
beside :
    translate_path base guest_prog_path
      (b'C' ∷ b':' ∷ b'/' ∷ (program ++ (b'X' ∷ b'/' ∷ b'a' ∷ [])))
    ≡ done (some (b'/' ∷ b'h' ∷ b'X' ∷ b'/' ∷ b'a' ∷ []))
unfolding translate_path target_realpath absolute normalize add_component parent slash_before
    last_index strip_prefix
beside = refl
