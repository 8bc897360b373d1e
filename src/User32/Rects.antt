-- ===== src/User32/Rects.antt =====
-- The rectangles of src/uwin/target_dlls/USER32/user32.c.
pub mod Points
mod Tests
use uwin_old.Common.{◌↔◌, arith}
use uwin_old.Common.{Bool, true, false, not, ◌&&◌, ◌||◌}
use uwin_old.Common.{if◌then◌else◌}
use uwin_old.Common.Int.{◌<ℤ◌}
use uwin_old.Common.Int.{ℤ, pos, ◌+ℤ◌, ◌≤ℤ◌, ltb_ℤ}

-- RECT
pub record Rect : Type 0 where
  pub left : ℤ
  pub top : ℤ
  pub right : ℤ
  pub bottom : ℤ

-- `minLONG` and `maxLONG`
abbrev pub min_long : ℤ → ℤ → ℤ
min_long a b = if ltb_ℤ a b then a else b

abbrev pub max_long : ℤ → ℤ → ℤ
max_long a b = if ltb_ℤ b a then a else b

-- `OffsetRect`, where no sum leaves 32 bits
pub offset_rect : Rect → ℤ → ℤ → Rect
offset_rect r dx dy = record {
  left = r.left +ℤ dx;
  top = r.top +ℤ dy;
  right = r.right +ℤ dx;
  bottom = r.bottom +ℤ dy;
}

abbrev pub eqb_ℤ : ℤ → ℤ → Bool
eqb_ℤ a b = not (ltb_ℤ a b) && not (ltb_ℤ b a)

-- `IsRectEmpty`
pub is_rect_empty : Rect → Bool
is_rect_empty r = eqb_ℤ r.left r.right || eqb_ℤ r.top r.bottom

-- `UnionRect`: the rectangle, and the result.
pub union_rect : Rect → Rect → Rect × Bool
union_rect a b =
    let dst : Rect = record {
      left = min_long a.left b.left;
      top = min_long a.top b.top;
      right = max_long a.right b.right;
      bottom = max_long a.bottom b.bottom;
    } in
    (dst, not (is_rect_empty dst))

abbrev pub overlap : Rect → Rect → Rect
overlap a b = record {
  left = max_long a.left b.left;
  top = max_long a.top b.top;
  right = min_long a.right b.right;
  bottom = min_long a.bottom b.bottom;
}

-- `IntersectRect`
pub intersect_rect : Rect → Rect → Rect × Bool
intersect_rect a b =
    let dst = overlap a b in
    if not (ltb_ℤ dst.left dst.right) || not (ltb_ℤ dst.top dst.bottom)
    then (record { left = pos 0; top = pos 0; right = pos 0; bottom = pos 0 }, false)
    else (dst, true)
