-- ===== src/Host/Paths/Confine.antt =====
-- Where `translate_path` of src/uwin/file.cpp leads on the host.
use uwin_old.Common.{ℕ}
use uwin_old.Common.{◌≡◌, refl, ap, ap₂, ◌∙◌, ◌⊎◌, inl, inr, arith}
use uwin_old.Common.{Bool, true, false, not, ◌&&◌, ◌||◌, none, some, List, [], ◌∷◌, ◌++◌}
use uwin_old.Common.{◌==◌, if◌then◌else◌, Bool-cases}
use uwin_old.Common.{get_or}
use uwin_old.Common.{done, panic}
use uwin_old.Ksvc.Text.{Text}
use uwin_old.Host.Paths.{
  absolute, guest_prog_path, is_empty, strip_prefix, target_realpath, translate_path,
}
use uwin_old.Host.Paths.Directories.{NoSlash, AreNames, slashed, path_of}
use uwin_old.Host.Paths.Resolve.{target_of, target_realpath_lem}

-- The name of the program's directory, "HOMM3"
abbrev pub program : Text
program = b'H' ∷ b'O' ∷ b'M' ∷ b'M' ∷ b'3' ∷ []

-- What a prefix without slashes leaves of a path that starts with a name.
abbrev Stripped : Text → Text → List Text → Text × Text → Type 0
Stripped v d ds left =
    (is_empty left.0 ≡ false)
    ⊎ ((extra : Text) × (d ≡ v ++ extra) × (left ≡ ([], extra ++ slashed ds)))

strip_prefix-Stripped :
    (v d : Text) (ds : List Text) → NoSlash v → Stripped v d ds (strip_prefix v (d ++ slashed ds))
unfolding strip_prefix
strip_prefix-Stripped [] d ds h = inr (d, refl, refl)
strip_prefix-Stripped (c ∷ v) [] [] h = inl refl
strip_prefix-Stripped (c ∷ v) [] (e ∷ es) h =
    let differs : (not (c == b'/') && (not (c == b'\\') || not (b'/' == b'/'))) ≡ true =
      ground (arith, h.0, h.1) in
    inl (rw differs refl)
strip_prefix-Stripped (c ∷ v) (x ∷ d) ds h = elim (Bool-cases (c == x)) [
  | inl same ↦
      let goes_on : (not (c == x) && (not (c == b'\\') || not (x == b'/'))) ≡ false =
        ground (arith, same) in
      rw goes_on (elim (strip_prefix-Stripped v d ds h.2) [
        | inl rest ↦ inl rest
        | inr (extra, is, left) ↦
            inr (extra, ap₂ (λ (y : ℕ) (t : Text). y ∷ t) (ground (arith, same)) is, left)
      ])
  | inr other ↦
      let differs : (not (c == x) && (not (c == b'\\') || not (x == b'/'))) ≡ true =
        ground (arith, other, h.1) in
      inl (rw differs refl)
]

-- The whole loop, on the path of a directory.
strip_program :
    (ds : List Text)
    → (is_empty (strip_prefix guest_prog_path (path_of ds)).0 ≡ false)
      ⊎ ((extra : Text) × (es : List Text) × (ds ≡ (program ++ extra) ∷ es)
          × (strip_prefix guest_prog_path (path_of ds) ≡ ([], extra ++ slashed es)))
unfolding strip_prefix
strip_program [] = inl refl
strip_program (d ∷ ds) = elim (strip_prefix-Stripped program d ds (omega arith)) [
  | inl rest ↦ inl rest
  | inr (extra, is, left) ↦ inr (extra, ds, ap (λ n. n ∷ ds) is, left)
]

-- On drive C, `translate_path` gives NULL, or what the name stands for is below a directory of the top
-- whose name starts with HOMM3, and the host's path is that of the program followed by the rest of
-- that name and by the names below it, none of which is empty, `.` or `..`.
pub translate_path_confined :
    (base cur name : Text)
    → (get_or (absolute cur name) 0 0 == b'C' || get_or (absolute cur name) 0 0 == b'c') ≡ true
    → (translate_path base cur name ≡ done none)
      ⊎ ((extra : Text) × (es : List Text) × (target_of cur name ≡ (program ++ extra) ∷ es)
          × AreNames es
          × (translate_path base cur name ≡ done (some (base ++ (extra ++ slashed es)))))
unfolding translate_path
translate_path_confined base cur name on_c =
    let (path, ns) = target_realpath_lem cur name in
    let real : target_realpath cur name ≡ done (path_of (target_of cur name)) =
      path ∙ ap (λ (b : Bool). if b then done (path_of (target_of cur name)) else panic) on_c in
    elim (strip_program (target_of cur name)) [
      | inl outside ↦ inl (rw (real, outside) refl)
      | inr (extra, es, is, left) ↦ inr (extra, es, is, (rw is at ns).1, rw (real, left) refl)
    ]

-- A name that stands for something in the program's directory gets the same names below the
-- directory on the host.
pub translate_path_inside :
    (base cur name : Text) (es : List Text)
    → (get_or (absolute cur name) 0 0 == b'C' || get_or (absolute cur name) 0 0 == b'c') ≡ true
    → target_of cur name ≡ program ∷ es
    → translate_path base cur name ≡ done (some (base ++ slashed es))
unfolding translate_path strip_prefix
translate_path_inside base cur name es on_c is =
    let (path, ns) = target_realpath_lem cur name in
    let real : target_realpath cur name ≡ done (path_of (program ∷ es)) =
      path
      ∙ ap (λ (b : Bool). if b then done (path_of (target_of cur name)) else panic) on_c
      ∙ ap (λ ds. done (path_of ds)) is in
    rw real refl
