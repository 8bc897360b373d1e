-- ===== src/Ddraw/Tests.antt =====
-- A buffer that is locked and unlocked, and copied with a colour key.
use uwin_old.Common.{◌+◌}
use uwin_old.Common.{◌≡◌, refl}
use uwin_old.Common.{true, false, [], ◌∷◌}
use uwin_old.Common.{done}
use uwin_old.Ddraw.{
  surface_screen, surface_buffer, Surface, surf_lock, surf_blit_srckeyed, new_surface,
  create_surface, is_screen, lock, set_color_key, blt,
}
use uwin_old.Ddraw.Locks.{created, locks, lock_depth}

abbrev buffer : Surface
buffer = new_surface surface_buffer 0x80000005

buffer_made :
    create_surface false (record { size = 108; flags = 7; caps = 0x840 }) 0 0x80000001 0x80000005
    ≡ done (buffer, false)
unfolding create_surface
buffer_made = refl

buffer_locked :
    lock buffer 0 108 1 ≡ done (record buffer { locked = true }, surf_lock 0x80000005 ∷ [])
unfolding lock
buffer_locked = refl

lock_depth_example : (1 ≡ 0 + 1) × (is_screen surface_buffer ≡ true → true ≡ false)
lock_depth_example =
    lock_depth surface_buffer 0x80000005 (record buffer { locked = true })
      (surf_lock 0x80000005 ∷ []) (locks 0 108 1 created buffer_locked)

abbrev keyed : Surface
keyed = record buffer { colorkey = 0x7ff; has_bltsrc_colorkey = true }

buffer_with_key : set_color_key buffer 0x8 0x7ff 0x7ff ≡ done (keyed, [])
unfolding set_color_key
buffer_with_key = refl

keyed_copy :
    blt (new_surface surface_screen 0x80000001) 0x1000 keyed 0x2000 0x1000000 0
    ≡ done (surf_blit_srckeyed 0x80000005 0x2000 0x80000001 0x1000 0 ∷ [])
unfolding blt
keyed_copy = refl
