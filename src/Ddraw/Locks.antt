-- ===== src/Ddraw/Locks.antt =====
-- The locks of the surfaces of src/uwin/target_dlls/DDRAW/uw_ddrawsurface.c.
use uwin_old.Common.{ℕ, ◌+◌}
use uwin_old.Common.{◌≡◌, refl, ap, ◌∙◌, arith}
use uwin_old.Common.{Bool, true, false, not, ◌&&◌, List, [], ◌∷◌, ◌++◌}
use uwin_old.Common.{◌==◌, if◌then◌else◌}
use uwin_old.Common.{done, bit_and, Bool-cases, inl, inr}
use mathlib.Core.Path.{subst}
use uwin_old.Common.{require-eq-done}
use uwin_old.Ddraw.{
  SurfaceType, Surface, SurfCall, surf_lock, surf_unlock, delref, surf_fill, surf_blit,
  surf_blit_srckeyed, new_surface, is_screen, lock, unlock, set_color_key, get_surface_desc, blt,
  release,
}

-- How often a handle is locked and unlocked by some calls.
abbrev pub locks_of : ℕ → SurfCall → ℕ
locks_of h (surf_lock k) = if k == h then 1 else 0
locks_of h (surf_unlock k) = 0
locks_of h (delref k) = 0
locks_of h (surf_fill k r c) = 0
locks_of h (surf_blit s r d q) = 0
locks_of h (surf_blit_srckeyed s r d q c) = 0

abbrev pub unlocks_of : ℕ → SurfCall → ℕ
unlocks_of h (surf_lock k) = 0
unlocks_of h (surf_unlock k) = if k == h then 1 else 0
unlocks_of h (delref k) = 0
unlocks_of h (surf_fill k r c) = 0
unlocks_of h (surf_blit s r d q) = 0
unlocks_of h (surf_blit_srckeyed s r d q c) = 0

abbrev pub total : (SurfCall → ℕ) → List SurfCall → ℕ
total f [] = 0
total f (c ∷ cs) = f c + total f cs

total-append :
    (f : SurfCall → ℕ) (xs ys : List SurfCall) → total f (xs ++ ys) ≡ total f xs + total f ys
total-append f [] ys = omega arith
total-append f (x ∷ xs) ys = omega (arith, total-append f xs ys)

-- The methods that return, with all calls of the host so far: the surface's own, and a copy from it
-- to another. Release is the last one in a program.
pub data Runs (stype : SurfaceType) (handle : ℕ) : Surface → List SurfCall → Type 0 where
  created : Runs stype handle (new_surface stype handle) []
  locks :
      {s s' : Surface} {log calls : List SurfCall} (rect size flags : ℕ)
      → Runs stype handle s log
      → lock s rect size flags ≡ done (s', calls)
      → Runs stype handle s' (log ++ calls)
  unlocks :
      {s s' : Surface} {log calls : List SurfCall}
      → Runs stype handle s log
      → unlock s ≡ done (s', calls)
      → Runs stype handle s' (log ++ calls)
  keys :
      {s s' : Surface} {log calls : List SurfCall} (flags low high : ℕ)
      → Runs stype handle s log
      → set_color_key s flags low high ≡ done (s', calls)
      → Runs stype handle s' (log ++ calls)
  describes :
      {s s' : Surface} {log calls : List SurfCall}
      → Runs stype handle s log
      → get_surface_desc s ≡ done (s', calls)
      → Runs stype handle s' (log ++ calls)
  blits :
      {s : Surface} {log calls : List SurfCall} (source : Surface) (rect src_rect flags color : ℕ)
      → Runs stype handle s log
      → blt s rect source src_rect flags color ≡ done calls
      → Runs stype handle s (log ++ calls)
  is_blitted :
      {s : Surface} {log calls : List SurfCall} (this : Surface) (rect src_rect flags color : ℕ)
      → Runs stype handle s log
      → blt this rect s src_rect flags color ≡ done calls
      → Runs stype handle s (log ++ calls)
  releases :
      {s : Surface} {log : List SurfCall}
      → Runs stype handle s log
      → Runs stype handle s (log ++ release s)

-- What a method does to the lock.
record Moves (s s' : Surface) (calls : List SurfCall) : Type 0 where
  same_handle : s'.handle ≡ s.handle
  same_type : s'.stype ≡ s.stype
  balance :
      total (locks_of s.handle) calls + (if s.locked then 1 else 0)
      ≡ total (unlocks_of s.handle) calls + (if s'.locked then 1 else 0)
  screen_free : is_screen s.stype ≡ true → s.locked ≡ false → s'.locked ≡ false

lock_guard : (a b c d e : Bool) → a && not b && not c && d && e ≡ true → (b ≡ false) × (c ≡ false)
lock_guard true false false d e h = (refl, refl)
lock_guard true false true d e h = cc
lock_guard true true c d e h = cc
lock_guard false b c d e h = cc

lock-Moves :
    (s s' : Surface) (calls : List SurfCall) (rect size flags : ℕ)
    → lock s rect size flags ≡ done (s', calls)
    → Moves s s' calls
unfolding lock
lock-Moves s s' calls rect size flags e =
    let d =
      require-eq-done
        ((rect == 0) && not (is_screen s.stype) && not s.locked && (size == 108) && (flags == 1)) _
        _ e in
    let g = lock_guard (rect == 0) (is_screen s.stype) s.locked (size == 108) (flags == 1) d.0 in
    subst (λ r. Moves s r.0 r.1) d.1
      (record {
        same_handle = refl;
        same_type = refl;
        balance = ground (arith, g.1);
        screen_free = λ a b. cc (a, g.0);
      })

unlock-Moves :
    (s s' : Surface) (calls : List SurfCall) → unlock s ≡ done (s', calls) → Moves s s' calls
unfolding unlock
unlock-Moves s s' calls e =
    let d = require-eq-done s.locked _ _ e in
    subst (λ r. Moves s r.0 r.1) d.1
      (record {
        same_handle = refl;
        same_type = refl;
        balance = ground (arith, d.0);
        screen_free = λ a b. refl;
      })

set_color_key-Moves :
    (s s' : Surface) (calls : List SurfCall) (flags low high : ℕ)
    → set_color_key s flags low high ≡ done (s', calls)
    → Moves s s' calls
unfolding set_color_key
set_color_key-Moves s s' calls flags low high e =
    let d = require-eq-done ((flags == 0x8) && (low == 0x7ff) && (high == 0x7ff)) _ _ e in
    subst (λ r. Moves s r.0 r.1) d.1
      (record { same_handle = refl; same_type = refl; balance = refl; screen_free = λ a b. b })

get_surface_desc-Moves :
    (s s' : Surface) (calls : List SurfCall)
    → get_surface_desc s ≡ done (s', calls)
    → Moves s s' calls
unfolding get_surface_desc
get_surface_desc-Moves s s' calls e =
    let d = require-eq-done (is_screen s.stype) _ _ e in
    subst (λ r. Moves s r.0 r.1) d.1
      (record {
        same_handle = refl;
        same_type = refl;
        balance = ground arith;
        screen_free = λ a b. b;
      })

-- Calls that leave locks alone leave the surface as it is.
quiet-Moves :
    (s : Surface) (calls : List SurfCall)
    → ((h : ℕ) → (total (locks_of h) calls ≡ 0) × (total (unlocks_of h) calls ≡ 0))
    → Moves s s calls
quiet-Moves s calls quiet = record {
  same_handle = refl;
  same_type = refl;
  balance = omega (arith, (quiet s.handle).0, (quiet s.handle).1);
  screen_free = λ a b. b;
}

blt_quiet :
    (this source : Surface) (calls : List SurfCall) (rect src_rect flags color h : ℕ)
    → blt this rect source src_rect flags color ≡ done calls
    → (total (locks_of h) calls ≡ 0) × (total (unlocks_of h) calls ≡ 0)
unfolding blt
blt_quiet this source calls rect src_rect flags color h e =
    let d = require-eq-done (bit_and flags 1 == 0) _ _ e in
    subst (λ cs. (total (locks_of h) cs ≡ 0) × (total (unlocks_of h) cs ≡ 0)) d.1
      (elim (Bool-cases (bit_and flags 0x400 == 0)) [
        | inr fills ↦ rw fills (refl, refl)
        | inl copies ↦ elim (Bool-cases source.has_bltsrc_colorkey) [
          | inl keyed ↦ rw (copies, keyed) (refl, refl)
          | inr plain ↦ rw (copies, plain) (refl, refl)
        ]
      ])

release_quiet :
    (s : Surface) (h : ℕ)
    → (total (locks_of h) (release s) ≡ 0) × (total (unlocks_of h) (release s) ≡ 0)
unfolding release
release_quiet s h = (refl, refl)

record IsBalanced (stype : SurfaceType) (handle : ℕ) (s : Surface) (log : List SurfCall)
    : Type 0 where
  handle_kept : s.handle ≡ handle
  type_kept : s.stype ≡ stype
  depth : total (locks_of handle) log ≡ total (unlocks_of handle) log + (if s.locked then 1 else 0)
  screen : is_screen stype ≡ true → s.locked ≡ false

Moves-IsBalanced :
    (stype : SurfaceType) (handle : ℕ) (s s' : Surface) (log calls : List SurfCall)
    → IsBalanced stype handle s log
    → Moves s s' calls
    → IsBalanced stype handle s' (log ++ calls)
Moves-IsBalanced stype handle s s' log calls b m =
    let balance =
      subst
        (λ h.
          total (locks_of h) calls + (if s.locked then 1 else 0)
          ≡ total (unlocks_of h) calls + (if s'.locked then 1 else 0))
        b.handle_kept m.balance in
    record {
      handle_kept = m.same_handle ∙ b.handle_kept;
      type_kept = m.same_type ∙ b.type_kept;
      depth = omega (
        arith,
        total-append (locks_of handle) log calls,
        total-append (unlocks_of handle) log calls,
        b.depth,
        balance,
      );
      screen = λ e. m.screen_free (ap is_screen b.type_kept ∙ e) (b.screen e);
    }

Runs-IsBalanced :
    {stype : SurfaceType} {handle : ℕ} {s : Surface} {log : List SurfCall}
    → Runs stype handle s log
    → IsBalanced stype handle s log
Runs-IsBalanced created = record {
  handle_kept = refl;
  type_kept = refl;
  depth = refl;
  screen = λ e. refl;
}
Runs-IsBalanced (locks rect size flags r e) =
    Moves-IsBalanced _ _ _ _ _ _ (Runs-IsBalanced r) (lock-Moves _ _ _ rect size flags e)
Runs-IsBalanced (unlocks r e) =
    Moves-IsBalanced _ _ _ _ _ _ (Runs-IsBalanced r) (unlock-Moves _ _ _ e)
Runs-IsBalanced (keys flags low high r e) =
    Moves-IsBalanced _ _ _ _ _ _ (Runs-IsBalanced r) (set_color_key-Moves _ _ _ flags low high e)
Runs-IsBalanced (describes r e) =
    Moves-IsBalanced _ _ _ _ _ _ (Runs-IsBalanced r) (get_surface_desc-Moves _ _ _ e)
Runs-IsBalanced (blits source rect src_rect flags color r e) =
    Moves-IsBalanced _ _ _ _ _ _ (Runs-IsBalanced r)
      (quiet-Moves _ _ (λ h. blt_quiet _ source _ rect src_rect flags color h e))
Runs-IsBalanced (is_blitted this rect src_rect flags color r e) =
    Moves-IsBalanced _ _ _ _ _ _ (Runs-IsBalanced r)
      (quiet-Moves _ _ (λ h. blt_quiet this _ _ rect src_rect flags color h e))
Runs-IsBalanced (releases r) =
    Moves-IsBalanced _ _ _ _ _ _ (Runs-IsBalanced r) (quiet-Moves _ _ (release_quiet _))

-- Whatever of Lock, Unlock, SetColorKey, GetSurfaceDesc, Blt (to the surface or from it) and Release has
-- run on a new surface, in whatever order: it has locked its handle on the host
-- once more than it has unlocked it if it is marked as locked, and just as often if not; a
-- screen surface is never marked.
pub lock_depth :
    (stype : SurfaceType) (handle : ℕ) (s : Surface) (log : List SurfCall)
    → Runs stype handle s log
    → (total (locks_of handle) log ≡ total (unlocks_of handle) log + (if s.locked then 1 else 0))
      × (is_screen stype ≡ true → s.locked ≡ false)
lock_depth stype handle s log r = let b = Runs-IsBalanced r in (b.depth, b.screen)
