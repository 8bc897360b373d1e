-- ===== src/User32/Rects/Points.antt =====
-- The points of the rectangles of src/uwin/target_dlls/USER32/user32.c.
use uwin_old.Common.{◌≡◌, refl, sym, ap, ◌↔◌, ◌⊎◌, inl, inr, arith}
use uwin_old.Common.{Bool, true, false, not, ◌&&◌, ◌||◌}
use uwin_old.Common.{if◌then◌else◌}
use uwin_old.Common.Int.{ℤ, pos, ◌+ℤ◌, ◌≤ℤ◌, ltb_ℤ}
use uwin_old.Common.Int.{◌<ℤ◌}
use uwin_old.Common.{ltb→lt}
use mathlib.Core.Path.{subst}
use uwin_old.User32.Rects.{
  Rect, min_long, max_long, offset_rect, overlap, union_rect, intersect_rect,
}

-- The points of a rectangle: the right and the bottom edge are outside.
abbrev pub In : ℤ → ℤ → Rect → Type 0
In x y r = (r.left ≤ℤ x) × (x <ℤ r.right) × (r.top ≤ℤ y) × (y <ℤ r.bottom)

max-le : (a b x : ℤ) → (max_long a b ≤ℤ x) ↔ ((a ≤ℤ x) × (b ≤ℤ x))
max-le a b x = (λ h. ground (arith, h), λ h. ground (arith, h))

lt-min : (a b x : ℤ) → (x <ℤ min_long a b) ↔ ((x <ℤ a) × (x <ℤ b))
lt-min a b x = (λ h. ground (arith, h), λ h. ground (arith, h))

lt-max : (a b x : ℤ) → (x <ℤ a) ⊎ (x <ℤ b) → x <ℤ max_long a b
lt-max a b x (inl h) = ground (arith, h)
lt-max a b x (inr h) = ground (arith, h)

min-le : (a b x : ℤ) → (a ≤ℤ x) ⊎ (b ≤ℤ x) → min_long a b ≤ℤ x
min-le a b x (inl h) = ground (arith, h)
min-le a b x (inr h) = ground (arith, h)

overlap-In : (a b : Rect) (x y : ℤ) → In x y (overlap a b) ↔ (In x y a × In x y b)
overlap-In a b x y =
    let l = max-le a.left b.left x in
    let t = max-le a.top b.top y in
    let r = lt-min a.right b.right x in
    let m = lt-min a.bottom b.bottom y in
    (
      (λ h.
          let l' = l.0 h.0 in
          let r' = r.0 h.1 in
          let t' = t.0 h.2 in
          let m' = m.0 h.3 in ((l'.0, r'.0, t'.0, m'.0), (l'.1, r'.1, t'.1, m'.1))),
      (λ h. (l.1 (h.0.0, h.1.0), r.1 (h.0.1, h.1.1), t.1 (h.0.2, h.1.2), m.1 (h.0.3, h.1.3))),
    )

-- The guard of `IntersectRect`, with what it chooses from.
guarded {ℓ} :
    {A : Type ℓ} (p q : Bool) (z w : A)
    → ((p && q ≡ true) × ((if not p || not q then z else w) ≡ w))
      ⊎ ((p && q ≡ false) × ((if not p || not q then z else w) ≡ z))
guarded true true z w = inl (refl, refl)
guarded true false z w = inr (refl, refl)
guarded false q z w = inr (refl, refl)

abbrev has_points : Rect → Bool
has_points d = ltb_ℤ d.left d.right && ltb_ℤ d.top d.bottom

lt_between : (l r x : ℤ) → l ≤ℤ x → (x <ℤ r) → ltb_ℤ l r ≡ true
lt_between l r x a b = ground (arith, a, b)

has_points-In : (d : Rect) (x y : ℤ) → In x y d → has_points d ≡ true
has_points-In d x y h =
    rw (lt_between d.left d.right x h.0 h.1, lt_between d.top d.bottom y h.2 h.3) refl

abbrev no_rect : Rect
no_rect = record { left = pos 0; top = pos 0; right = pos 0; bottom = pos 0 }

no_rect-In : (x y : ℤ) → ¬ In x y no_rect
no_rect-In x y h = ground (arith, h.0, h.1)

intersect_rect-cases :
    (a b : Rect)
    → ((has_points (overlap a b) ≡ true) × (intersect_rect a b ≡ (overlap a b, true)))
      ⊎ ((has_points (overlap a b) ≡ false) × (intersect_rect a b ≡ (no_rect, false)))
unfolding intersect_rect
intersect_rect-cases a b =
    let d = overlap a b in
    guarded (ltb_ℤ d.left d.right) (ltb_ℤ d.top d.bottom) (no_rect, false) (d, true)

both : (p q : Bool) → p && q ≡ true → (p ≡ true) × (q ≡ true)
both true q e = (refl, e)
both false q e = cc

has_points-corner : (d : Rect) → has_points d ≡ true → In d.left d.top d
has_points-corner d e =
    let g = both (ltb_ℤ d.left d.right) (ltb_ℤ d.top d.bottom) e in
    (omega arith, ltb→lt _ _ g.0, omega arith, ltb→lt _ _ g.1)

-- The rectangle that `IntersectRect` gives has exactly the points that both rectangles have. The result
-- is TRUE if they have one in common; if it is TRUE, the upper left corner of the rectangle is one.
pub intersect_rect_lem :
    (a b : Rect) (x y : ℤ)
    → (In x y (intersect_rect a b).0 ↔ (In x y a × In x y b))
      × ((In x y a × In x y b) → (intersect_rect a b).1 ≡ true)
      × ((intersect_rect a b).1 ≡ true
          → In (intersect_rect a b).0.left (intersect_rect a b).0.top (intersect_rect a b).0)
intersect_rect_lem a b x y = elim (intersect_rect-cases a b) [
  | inl (e, is) ↦ (
    subst (λ r. In x y r ↔ (In x y a × In x y b)) (sym (ap (λ r. r.0) is)) (overlap-In a b x y),
    (λ h. ap (λ r. r.1) is),
    (λ h.
        subst (λ r. In r.left r.top r) (sym (ap (λ r. r.0) is))
          (has_points-corner (overlap a b) e)),
  )
  | inr (e, is) ↦
      let none_here : (In x y a × In x y b) → ⊥ =
        λ h. cc (e, has_points-In (overlap a b) x y ((overlap-In a b x y).1 h)) in
      (
        subst (λ r. In x y r ↔ (In x y a × In x y b)) (sym (ap (λ r. r.0) is))
            ((λ h. elim (no_rect-In x y h) [ ]), (λ h. elim (none_here h) [ ])),
        (λ h. elim (none_here h) [ ]),
        (λ h. cc (h, ap (λ r. r.1) is)),
      )
]

+ℤ-le : (a x d : ℤ) → (a +ℤ d ≤ℤ x +ℤ d) ↔ (a ≤ℤ x)
unfolding ◌+ℤ◌
+ℤ-le a x d = ((λ h. ground (arith, h)), (λ h. ground (arith, h)))

+ℤ-lt : (a x d : ℤ) → ((a +ℤ d) <ℤ (x +ℤ d)) ↔ (a <ℤ x)
unfolding ◌+ℤ◌
+ℤ-lt a x d = ((λ h. ground (arith, h)), (λ h. ground (arith, h)))

-- Moving a rectangle moves its points.
pub offset_rect-In :
    (r : Rect) (dx dy x y : ℤ) → In (x +ℤ dx) (y +ℤ dy) (offset_rect r dx dy) ↔ In x y r
unfolding offset_rect
offset_rect-In r dx dy x y =
    let l = +ℤ-le r.left x dx in
    let e = +ℤ-lt x r.right dx in
    let t = +ℤ-le r.top y dy in
    let b = +ℤ-lt y r.bottom dy in
    ((λ h. (l.0 h.0, e.0 h.1, t.0 h.2, b.0 h.3)), (λ h. (l.1 h.0, e.1 h.1, t.1 h.2, b.1 h.3)))

-- `UnionRect` gives a rectangle with the points of both.
pub union_rect-In : (a b : Rect) (x y : ℤ) → In x y a ⊎ In x y b → In x y (union_rect a b).0
unfolding union_rect
union_rect-In a b x y (inl h) = (
  min-le a.left b.left x (inl h.0),
  lt-max a.right b.right x (inl h.1),
  min-le a.top b.top y (inl h.2),
  lt-max a.bottom b.bottom y (inl h.3),
)
union_rect-In a b x y (inr h) = (
  min-le a.left b.left x (inr h.0),
  lt-max a.right b.right x (inr h.1),
  min-le a.top b.top y (inr h.2),
  lt-max a.bottom b.bottom y (inr h.3),
)
