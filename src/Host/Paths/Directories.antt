-- ===== src/Host/Paths/Directories.antt =====
-- Directories of the emulated drive as lists of names, the specification of src/uwin/file.cpp.
use uwin_old.Common.{◌≡◌, refl, ap, ◌≢◌, ◌⊎◌, inl, inr}
use uwin_old.Common.{false, ◌||◌, List, [], ◌∷◌, ◌++◌}
use uwin_old.Common.{◌==◌, if◌then◌else◌}
use uwin_old.Ksvc.Text.{Text}
use uwin_old.Host.Paths.{is_empty, is_dot, is_dot_dot}

-- A text without slashes of either kind.
abbrev pub NoSlash : Text → Type 0
NoSlash [] = Unit
NoSlash (c ∷ s) = (c ≢ b'/') × (c ≢ b'\\') × NoSlash s

-- A name that stands for itself in a path.
pub record IsName (s : Text) : Type 0 where
  pub no_slash : NoSlash s
  pub not_empty : is_empty s ≡ false
  pub not_dot : is_dot s ≡ false
  pub not_dot_dot : is_dot_dot s ≡ false

abbrev pub AreNames : List Text → Type 0
AreNames [] = Unit
AreNames (d ∷ ds) = IsName d × AreNames ds

-- The pieces of a path between its slashes; `piece` is the start of the first.
abbrev pub pieces : Text → Text → List Text
pieces piece [] = piece ∷ []
pieces piece (c ∷ path) =
    if c == b'/' then piece ∷ pieces [] path else pieces (piece ++ (c ∷ [])) path

abbrev pub init : List Text → List Text
init [] = []
init (d ∷ []) = []
init (d ∷ e ∷ ds) = d ∷ init (e ∷ ds)

-- The directory that a piece leads to, and a path of pieces.
abbrev pub enter : List Text → Text → List Text
enter ds piece =
    if is_dot piece || is_empty piece
    then ds
    else if is_dot_dot piece
    then init ds
    else ds ++ (piece ∷ [])

abbrev pub resolve : List Text → List Text → List Text
resolve ds [] = ds
resolve ds (p ∷ ps) = resolve (enter ds p) ps

abbrev pub slashed : List Text → Text
slashed [] = []
slashed (d ∷ ds) = b'/' ∷ (d ++ slashed ds)

-- The path of a directory.
abbrev pub path_of : List Text → Text
path_of ds = b'C' ∷ b':' ∷ slashed ds

pub init-append : (ds : List Text) (d : Text) → init (ds ++ (d ∷ [])) ≡ ds
init-append [] d = refl
init-append (e ∷ []) d = refl
init-append (e ∷ f ∷ ds) d = ap (λ r. e ∷ r) (init-append (f ∷ ds) d)

-- A directory is the top or is in another.
pub snoc-cases :
    (ds : List Text) → (ds ≡ []) ⊎ ((es : List Text) × (d : Text) × (ds ≡ es ++ (d ∷ [])))
snoc-cases [] = inl refl
snoc-cases (d ∷ ds) = elim (snoc-cases ds) [
  | inl top ↦ inr ([], d, ap (λ r. d ∷ r) top)
  | inr (es, e, is) ↦ inr (d ∷ es, e, ap (λ r. d ∷ r) is)
]

pub AreNames-append :
    (ds : List Text) (d : Text) → AreNames ds → IsName d → AreNames (ds ++ (d ∷ []))
AreNames-append [] d ns n = (n, tt)
AreNames-append (e ∷ ds) d ns n = (ns.0, AreNames-append ds d ns.1 n)

pub AreNames-last : (ds : List Text) (d : Text) → AreNames (ds ++ (d ∷ [])) → AreNames ds × IsName d
AreNames-last [] d ns = (tt, ns.0)
AreNames-last (e ∷ ds) d ns = let (rest, n) = AreNames-last ds d ns.1 in ((ns.0, rest), n)

pub init-AreNames : (ds : List Text) → AreNames ds → AreNames (init ds)
init-AreNames [] ns = tt
init-AreNames (d ∷ []) ns = tt
init-AreNames (d ∷ e ∷ ds) ns = (ns.0, init-AreNames (e ∷ ds) ns.1)
