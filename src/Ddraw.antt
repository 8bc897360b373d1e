-- ===== src/Ddraw.antt =====
-- DDRAW.DLL, src/uwin/target_dlls/DDRAW: the surfaces of DirectDraw and the calls of the host that their
-- methods make. A `goto bad` stops the process; rectangles are their addresses.
pub mod Locks
mod Tests
use uwin_old.Common.{ℕ, zero, suc, ◌+◌, ◌-◌, ◌*◌, ◌/◌, ◌%◌, ◌^◌, ◌≤◌, ◌<◌, bit_and, bit_or}
use uwin_old.Common.{◌≡◌, refl, sym, ap, ap₂, ◌∙◌, fun_ext, ◌≢◌, ◌↔◌, ◌⊎◌, inl, inr, arith}
use uwin_old.Common.{
  Bool, true, false, not, ◌&&◌, ◌||◌, Option, none, some, List, [], ◌∷◌, ◌++◌, map,
}
use uwin_old.Common.{
  ltb, leb, ◌==◌, if◌then◌else◌, Bool-cases, Option-cases, length, get_elem?, set,
}
use uwin_old.Common.{
  get_or, take, drop, replicate, length-append, length-set, get_elem?-set_self, get_elem?-set_ne,
}
use uwin_old.Common.{
  Outcome, done, panic, ◌>>=◌, ◌>>◌, require, u8, u16, u32, u64, sub32, sub64, signed32,
}
use uwin_old.Common.Int.{ℤ, pos, negsuc, pos_part, neg_part, sub_ℕ, ◌+ℤ◌, ◌-ℤ◌, ◌*ℤ◌, ◌≤ℤ◌, ltb_ℤ}

pub data SurfaceType : Type 0 where
  surface_screen surface_buffer : SurfaceType

-- `uw_DirectDrawSurface_t`
pub record Surface : Type 0 where
  pub stype : SurfaceType
  pub handle : ℕ
  pub has_bltsrc_colorkey : Bool
  pub locked : Bool
  pub colorkey : ℕ

-- The calls of the host.
pub data SurfCall : Type 0 where
  surf_lock surf_unlock delref : (handle : ℕ) → SurfCall
  surf_fill : (handle rect color : ℕ) → SurfCall
  surf_blit : (src_handle src_rect dst_handle dst_rect : ℕ) → SurfCall
  surf_blit_srckeyed : (src_handle src_rect dst_handle dst_rect color : ℕ) → SurfCall

-- `memset` and the fields that `DirectDraw_CreateSurface` sets.
abbrev pub new_surface : SurfaceType → ℕ → Surface
new_surface stype handle = record {
  stype = stype;
  handle = handle;
  has_bltsrc_colorkey = false;
  locked = false;
  colorkey = 0;
}

-- DDSURFACEDESC, as far as `DirectDraw_CreateSurface` reads it.
pub record SurfaceDesc : Type 0 where
  pub size : ℕ
  pub flags : ℕ
  pub caps : ℕ

-- DDSCAPS_PRIMARYSURFACE, or DDSCAPS_SYSTEMMEMORY | DDSCAPS_OFFSCREENPLAIN.
abbrev pub type_of_caps : ℕ → Option SurfaceType
type_of_caps caps =
    if caps == 0x200
    then some surface_screen
    else if caps == 0x840
    then some surface_buffer
    else none

-- `DirectDraw_CreateSurface` on `screen_created`, with the handles that `ksurf_get_primary` and
-- `ksurf_alloc` give; a DDSURFACEDESC has 108 bytes, DDSD_CAPS is 1, and with DDSD_HEIGHT and DDSD_WIDTH 7.
pub create_surface : Bool → SurfaceDesc → ℕ → ℕ → ℕ → Outcome (Surface × Bool)
create_surface screen_created d outer primary fresh =
    require ((d.size == 108) && not (bit_and d.flags 1 == 0)) >> elim (type_of_caps d.caps) [
      | none ↦ panic
      | some surface_screen ↦
          require ((outer == 0) && not screen_created)
          >> done (new_surface surface_screen primary, true)
      | some surface_buffer ↦
          require ((outer == 0) && (d.flags == 7))
          >> done (new_surface surface_buffer fresh, screen_created)
    ]

-- `DirectDraw_SetCooperativeLevel`: fullscreen, exclusive and allow-reboot, or normal.
pub set_cooperative_level : ℕ → ℕ → Outcome (Unit {0})
set_cooperative_level hwnd flags =
    require (hwnd == 1) >> require ((flags == 0x13) || (flags == 0x8))

-- `DirectDraw_SetDisplayMode`
pub set_display_mode : ℕ → ℕ → ℕ → Outcome (Unit {0})
set_display_mode width height bpp = require ((width == 800) && (height == 600) && (bpp == 16))

abbrev pub is_screen : SurfaceType → Bool
is_screen surface_screen = true
is_screen surface_buffer = false

-- `DirectDrawSurface_Lock`: DDLOCK_WAIT is 1.
pub lock : Surface → ℕ → ℕ → ℕ → Outcome (Surface × List SurfCall)
lock this dest_rect desc_size flags =
    require (
      (dest_rect == 0)
      && not (is_screen this.stype)
      && not this.locked
      && (desc_size == 108)
      && (flags == 1))
    >> done (record this { locked = true }, surf_lock this.handle ∷ [])

-- `DirectDrawSurface_Unlock`
pub unlock : Surface → Outcome (Surface × List SurfCall)
unlock this =
    require this.locked >> done (record this { locked = false }, surf_unlock this.handle ∷ [])

-- `DirectDrawSurface_SetColorKey`: DDCKEY_SRCBLT is 8.
pub set_color_key : Surface → ℕ → ℕ → ℕ → Outcome (Surface × List SurfCall)
set_color_key this flags low high =
    require ((flags == 0x8) && (low == 0x7ff) && (high == 0x7ff))
    >> done (record this { colorkey = low; has_bltsrc_colorkey = true }, [])

-- `DirectDrawSurface_Blt`: DDBLT_COLORFILL is 0x400. In the test of the unknown flags `!=` binds before
-- `&`, so it looks at bit 0 only.
pub blt : Surface → ℕ → Surface → ℕ → ℕ → ℕ → Outcome (List SurfCall)
blt this dest_rect source src_rect flags fill_color =
    require (bit_and flags 1 == 0)
    >> done (
        if not (bit_and flags 0x400 == 0)
        then surf_fill this.handle dest_rect fill_color ∷ []
        else if not source.has_bltsrc_colorkey
        then surf_blit source.handle src_rect this.handle dest_rect ∷ []
        else surf_blit_srckeyed source.handle src_rect this.handle dest_rect this.colorkey ∷ [])

-- `DirectDrawSurface_GetSurfaceDesc`: it stops the process for a buffer.
pub get_surface_desc : Surface → Outcome (Surface × List SurfCall)
get_surface_desc this =
    require (is_screen this.stype)
    >> done (this, surf_lock this.handle ∷ surf_unlock this.handle ∷ [])

-- `DirectDrawSurface_Release`
pub release : Surface → List SurfCall
release this = delref this.handle ∷ []
