-- ===== src/Host/Paths/Resolve.antt =====
-- `target_realpath` of src/uwin/file.cpp resolves a path piece by piece.
use uwin_old.Common.{ℕ, zero, suc, ◌-◌}
use uwin_old.Common.{◌≡◌, refl, sym, ap, ◌∙◌, ◌≢◌, inl, inr, arith}
use uwin_old.Common.{Bool, true, false, not, ◌||◌, List, [], ◌∷◌, ◌++◌}
use uwin_old.Common.{◌==◌, if◌then◌else◌, Bool-cases, length}
use uwin_old.Common.{get_or, take, drop, length-append}
use uwin_old.Common.{done, panic}
use mathlib.Core.List.{append_assoc}
use uwin_old.Ksvc.Text.{Text}
use uwin_old.Host.Paths.{forward, absolute, normalize, target_realpath}
use uwin_old.Host.Paths.Directories.{NoSlash, AreNames, pieces, enter, resolve, slashed, path_of}
use uwin_old.Common.{take-append}
use uwin_old.Host.Paths.Buffer.{body, render, add_component-render}

abbrev NoBackslash : Text → Type 0
NoBackslash [] = Unit
NoBackslash (c ∷ s) = (c ≢ b'\\') × NoBackslash s

NoSlash-append : (s : Text) (c : ℕ) → NoSlash s → c ≢ b'/' → c ≢ b'\\' → NoSlash (s ++ (c ∷ []))
NoSlash-append [] c h n m = (n, m, tt)
NoSlash-append (x ∷ s) c h n m = (h.0, h.1, NoSlash-append s c h.2 n m)

normalize-render :
    (ds : List Text) (piece path : Text)
    → AreNames ds
    → NoSlash piece
    → NoBackslash path
    → (normalize (render ds) piece path ≡ render (resolve ds (pieces piece path)))
      × AreNames (resolve ds (pieces piece path))
unfolding normalize
normalize-render ds piece [] ns h b = add_component-render ds piece ns h
normalize-render ds piece (c ∷ path) ns h b = elim (Bool-cases (c == b'/')) [
  | inl slash ↦
      let (added, ns') = add_component-render ds piece ns h in
      rw (slash, added) (normalize-render (enter ds piece) [] path ns' tt b.1)
  | inr other ↦ rw other (
      normalize-render ds (piece ++ (c ∷ [])) path ns
        (NoSlash-append piece c h (ground (arith, other)) b.0) b.1)
]

forward-NoBackslash : (s : Text) → NoBackslash (forward s)
forward-NoBackslash [] = tt
forward-NoBackslash (c ∷ s) = (ground arith, forward-NoBackslash s)

if-NoBackslash :
    (b : Bool) (s t : Text) → NoBackslash s → NoBackslash t → NoBackslash (if b then s else t)
if-NoBackslash true s t h k = h
if-NoBackslash false s t h k = k

absolute-NoBackslash : (cur name : Text) → NoBackslash (absolute cur name)
unfolding absolute
absolute-NoBackslash cur name =
    let copy = forward name in
    let below = forward (cur ++ copy) in
    let beside = forward (cur ++ (b'/' ∷ copy)) in
    if-NoBackslash (not (get_or copy 1 0 == b':') || not (get_or copy 2 0 == b'/'))
      (if get_or copy 0 0 == b'/' then below else beside) copy
      (if-NoBackslash (get_or copy 0 0 == b'/') below beside (forward-NoBackslash (cur ++ copy))
        (forward-NoBackslash (cur ++ (b'/' ∷ copy))))
      (forward-NoBackslash name)

drop-NoBackslash : (n : ℕ) (s : Text) → NoBackslash s → NoBackslash (drop n s)
drop-NoBackslash zero s h = h
drop-NoBackslash (suc n) [] h = tt
drop-NoBackslash (suc n) (c ∷ s) h = drop-NoBackslash n s h.1

-- The buffer without its last slash is the path of the directory.
body-slashed : (ds : List Text) → b'/' ∷ body ds ≡ slashed ds ++ (b'/' ∷ [])
body-slashed [] = refl
body-slashed (d ∷ ds) =
    ap (λ r. b'/' ∷ r)
      (ap (λ r. d ++ r) (body-slashed ds) ∙ sym (append_assoc d (slashed ds) (b'/' ∷ [])))

take_but_last : (s : Text) (c : ℕ) → take (length (s ++ (c ∷ [])) - 1) (s ++ (c ∷ [])) ≡ s
take_but_last s c =
    let one_less : length (s ++ (c ∷ [])) - 1 ≡ length s =
      omega (arith, length-append s (c ∷ [])) in
    rw one_less (take-append s (c ∷ []))

render-path_of : (ds : List Text) → take (length (render ds) - 1) (render ds) ≡ path_of ds
render-path_of ds =
    ap (λ r. take (length r - 1) r) (ap (λ r. b'C' ∷ b':' ∷ r) (body-slashed ds))
    ∙ take_but_last (path_of ds) b'/'

-- The directory or file that a name stands for: its pieces behind the drive, followed from the top.
abbrev pub target_of : Text → Text → List Text
target_of cur name = resolve [] (pieces [] (drop 3 (absolute cur name)))

-- A name on drive C is resolved to the path of what it stands for: its pieces behind the drive are
-- followed one by one from the top, `.` and nothing staying, `..` going up, but not above the top. The
-- path has no piece that is empty, `.` or `..`. A name on another drive stops the process.
pub target_realpath_lem :
    (cur name : Text)
    → (target_realpath cur name ≡ (
        if get_or (absolute cur name) 0 0 == b'C' || get_or (absolute cur name) 0 0 == b'c'
        then done (path_of (target_of cur name))
        else panic))
      × AreNames (target_of cur name)
unfolding target_realpath
target_realpath_lem cur name =
    let (buffer, ns) =
      normalize-render [] [] (drop 3 (absolute cur name)) tt tt
        (drop-NoBackslash 3 (absolute cur name) (absolute-NoBackslash cur name)) in
    let drive = get_or (absolute cur name) 0 0 in
    let path = ap (λ r. take (length r - 1) r) buffer ∙ render-path_of (target_of cur name) in
    (
      elim (Bool-cases (drive == b'C' || drive == b'c')) [
        | inl on_c ↦ rw on_c (ap done path)
        | inr other ↦ rw other refl
      ],
      ns,
    )
