-- ===== src/User32/Rects/Tests.antt =====
-- Two rectangles that overlap, one of which reaches above the screen.
use uwin_old.Common.{◌≡◌, refl, ◌↔◌}
use uwin_old.Common.{true}
use uwin_old.Common.Int.{pos, negsuc}
use uwin_old.User32.Rects.{Rect, union_rect, intersect_rect}
use uwin_old.User32.Rects.Points.{In, intersect_rect_lem}

abbrev tile : Rect
tile = record { left = pos 0; top = pos 0; right = pos 32; bottom = pos 32 }

abbrev hero : Rect
hero = record { left = pos 16; top = negsuc 9; right = pos 48; bottom = pos 22 }

overlaps :
    intersect_rect tile hero
    ≡ (record { left = pos 16; top = pos 0; right = pos 32; bottom = pos 22 }, true)
unfolding intersect_rect
overlaps = refl

intersect_rect_lem_example :
    (In (pos 20) (pos 5) (intersect_rect tile hero).0
      ↔ (In (pos 20) (pos 5) tile × In (pos 20) (pos 5) hero))
    × ((In (pos 20) (pos 5) tile × In (pos 20) (pos 5) hero) → (intersect_rect tile hero).1 ≡ true)
    × ((intersect_rect tile hero).1 ≡ true
        → In
            (intersect_rect tile hero).0.left
            (intersect_rect tile hero).0.top
            (intersect_rect tile hero).0)
intersect_rect_lem_example = intersect_rect_lem tile hero (pos 20) (pos 5)

joined :
    (union_rect tile hero).0
    ≡ record { left = pos 0; top = negsuc 9; right = pos 48; bottom = pos 32 }
unfolding union_rect
joined = refl
