-- ===== src/Host/Paths/Buffer.antt =====
-- What the buffer of `target_realpath` (src/uwin/file.cpp) holds: a directory.
use uwin_old.Common.{ℕ, zero, suc, ◌+◌, ◌-◌, ◌≤◌, ◌<◌}
use uwin_old.Common.{◌≡◌, refl, sym, ap, ◌∙◌, inl, inr, arith}
use uwin_old.Common.{false, ◌||◌, List, [], ◌∷◌, ◌++◌}
use uwin_old.Common.{◌==◌, Bool-cases, length}
use uwin_old.Common.{get_or, length-append}
use mathlib.Core.List.{append_assoc}
use uwin_old.Ksvc.Text.{Text}
use uwin_old.Host.Paths.{root, is_empty, is_dot, is_dot_dot, slash_before, parent, add_component}
use uwin_old.Common.{get_or-append_right}
use uwin_old.Common.{get_or-append_left}
use uwin_old.Common.{last_index}
use uwin_old.Common.{last_index-at}
use uwin_old.Common.{take-append}
use uwin_old.Host.Paths.Directories.{
  NoSlash, IsName, AreNames, init, enter, init-append, snoc-cases, AreNames-append, AreNames-last,
  init-AreNames,
}

abbrev pub body : List Text → Text
body [] = []
body (d ∷ ds) = d ++ (b'/' ∷ body ds)

-- The buffer that holds a directory.
abbrev pub render : List Text → Text
render ds = root ++ body ds

body-append : (ds : List Text) (d : Text) → body (ds ++ (d ∷ [])) ≡ body ds ++ (d ++ (b'/' ∷ []))
body-append [] d = refl
body-append (e ∷ ds) d =
    rw (body-append ds d) (sym (append_assoc e (b'/' ∷ body ds) (d ++ (b'/' ∷ []))))

get_or-NoSlash : (s : Text) (i : ℕ) → NoSlash s → (get_or s i 0 == b'/') ≡ false
get_or-NoSlash [] i h = refl
get_or-NoSlash (c ∷ s) zero h = ground arith
get_or-NoSlash (c ∷ s) (suc i) h = get_or-NoSlash s i h.2

length_pos : (s : Text) → is_empty s ≡ false → 0 < length s
length_pos [] h = ground arith
length_pos (c ∷ s) h = omega arith

slash_at : (f d : Text) → get_or ((f ++ (b'/' ∷ [])) ++ (d ++ (b'/' ∷ []))) (length f) 0 ≡ b'/'
slash_at [] d = refl
slash_at (x ∷ f) d = slash_at f d

-- `..` takes the last name off the buffer.
parent-name :
    (f d : Text)
    → 2 ≤ length f
    → NoSlash d
    → is_empty d ≡ false
    → parent ((f ++ (b'/' ∷ [])) ++ (d ++ (b'/' ∷ []))) ≡ f ++ (b'/' ∷ [])
unfolding parent slash_before
parent-name f d long no_slash nonempty =
    let a = f ++ (b'/' ∷ []) in
    let tail = d ++ (b'/' ∷ []) in
    let out = a ++ tail in
    let size_a : length a ≡ length f + 1 = length-append f (b'/' ∷ []) in
    let size : length out ≡ length f + length d + 2 =
      omega (arith, length-append a tail, length-append d (b'/' ∷ [])) in
    let some_bytes = length_pos d nonempty in
    let not_top : (length out - 2 == 1) ≡ false = ground (arith, size) in
    let here : get_or out (length f) 0 ≡ b'/' = slash_at f d in
    let after : (i : ℕ) → length f < i → i ≤ length out - 2 → (get_or out i 0 == b'/') ≡ false =
      λ i above below.
        let k = i - length a in
        let split : i ≡ length a + k = omega arith in
        let inside : k < length d = omega arith in
        let read : get_or out i 0 ≡ get_or d k 0 =
          ap (λ (j : ℕ). get_or out j 0) split
          ∙ (get_or-append_right a tail k 0 ∙ get_or-append_left d (b'/' ∷ []) k 0 inside) in
        rw read (get_or-NoSlash d k no_slash) in
    let at : last_index (λ i. get_or out i 0 == b'/') (length out - 2) ≡ length f =
      last_index-at (λ i. get_or out i 0 == b'/') (length f) (length out - 2)
        (λ e. ground (arith, here)) after (omega arith) in
    rw (not_top, at, sym size_a) (take-append a tail)

-- The buffer ends in a slash.
pub render-ends : (ds : List Text) → (f : Text) × (2 ≤ length f) × (render ds ≡ f ++ (b'/' ∷ []))
render-ends ds = elim (snoc-cases ds) [
  | inl top ↦ (b'C' ∷ b':' ∷ [], omega arith, rw top refl)
  | inr (es, d, is) ↦ (
    root ++ (body es ++ d),
    omega arith,
    rw (is, body-append es d) (ap (λ r. root ++ r) (sym (append_assoc (body es) d (b'/' ∷ [])))),
  )
]

render-append :
    (es : List Text) (d : Text) → render (es ++ (d ∷ [])) ≡ render es ++ (d ++ (b'/' ∷ []))
render-append es d = ap (λ r. root ++ r) (body-append es d)

parent-root : parent root ≡ root
unfolding parent
parent-root = refl

parent-render : (ds : List Text) → AreNames ds → parent (render ds) ≡ render (init ds)
parent-render ds ns = elim (snoc-cases ds) [
  | inl top ↦ rw top parent-root
  | inr (es, d, is) ↦
      let (f, long, ends) = render-ends es in
      let n = (AreNames-last es d (rw is at ns)).1 in
      let tail = d ++ (b'/' ∷ []) in
      let whole : render ds ≡ (f ++ (b'/' ∷ [])) ++ tail =
        ap render is ∙ render-append es d ∙ ap (λ a. a ++ tail) ends in
      let above : render (init ds) ≡ f ++ (b'/' ∷ []) =
        ap (λ l. render (init l)) is ∙ ap render (init-append es d) ∙ ends in
      ap parent whole ∙ parent-name f d long n.no_slash n.not_empty ∙ sym above
]

-- A piece does to the buffer what it does to the directory.
pub add_component-render :
    (ds : List Text) (piece : Text)
    → AreNames ds
    → NoSlash piece
    → (add_component (render ds) piece ≡ render (enter ds piece)) × AreNames (enter ds piece)
unfolding add_component
add_component-render ds piece ns h = elim (Bool-cases (is_dot piece || is_empty piece)) [
  | inl skip ↦ rw skip (refl, ns)
  | inr more ↦ elim (Bool-cases (is_dot_dot piece)) [
    | inl up ↦ rw (more, up) (parent-render ds ns, init-AreNames ds ns)
    | inr down ↦
        let n : IsName piece = record {
          no_slash = h;
          not_empty = ground (arith, more);
          not_dot = ground (arith, more);
          not_dot_dot = down;
        } in
        rw (more, down) (sym (render-append ds piece), AreNames-append ds piece ns n)
  ]
]
