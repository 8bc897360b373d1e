-- ===== src/Jit/ThreadSetup/Guards.antt =====
-- The stack that src/uwin/jit_cpu_loop.cpp gives a new thread, and what its TEB says of it.
use uwin_old.Common.{then-done}
use uwin_old.Common.{ℕ, ◌+◌, ◌^◌, ◌≤◌, ◌<◌}
use uwin_old.Common.{◌≡◌, sym, ap, ap₂, ◌∙◌, arith}
use uwin_old.Common.{done, ◌>>=◌}
use mathlib.Core.Path.{subst}
use uwin_old.Common.{get_done, ap₂}
use uwin_old.Host.MemoryMap.{Space, Prot, prot_rw, prot_n, map_dynamic, address_space, protect}
use uwin_old.Host.MemoryMap.Regions.{map_dynamic-base}
use uwin_old.Jit.ThreadSetup.{ThreadParams, setup_stack}

-- The stack is readable and writable, and a page on either side of it is not.
abbrev pub IsGuarded : ℕ → ℕ → ℕ → (ℕ → Prot) → Type 0
IsGuarded page top size prot =
    ((a : ℕ) → top ≤ a → a < top + size → prot a ≡ prot_rw)
    × (((a : ℕ) → top ≤ a + page → a < top → prot a ≡ prot_n)
        × ((a : ℕ) → top + size ≤ a → a < top + size + page → prot a ≡ prot_n))

protect-in : (f : ℕ → Prot) (b n : ℕ) (p : Prot) (a : ℕ) → b ≤ a → a < b + n → protect f b n p a ≡ p
protect-in f b n p a lo hi = ground (arith, lo, hi)

protect-below : (f : ℕ → Prot) (b n : ℕ) (p : Prot) (a : ℕ) → a < b → protect f b n p a ≡ f a
protect-below f b n p a lt = ground (arith, lt)

-- Three mappings behind each other.
abbrev layers : (ℕ → Prot) → ℕ → ℕ → ℕ → ℕ → Prot
layers f b page size =
    protect (protect (protect f b page prot_n) (b + page) size prot_rw) (b + page + size) page
      prot_n

layers-IsGuarded :
    (f : ℕ → Prot) (b page size : ℕ) → IsGuarded page (b + page) size (layers f b page size)
layers-IsGuarded f b page size =
    let lower = protect f b page prot_n in
    let middle = protect lower (b + page) size prot_rw in
    (
      λ a lo hi.
          protect-below middle (b + page + size) page prot_n a hi
          ∙ protect-in lower (b + page) size prot_rw a lo hi,
      (
        λ a lo hi.
            protect-below middle (b + page + size) page prot_n a (omega (arith, hi))
            ∙ protect-below lower (b + page) size prot_rw a hi
            ∙ protect-in f b page prot_n a (omega (arith, lo)) hi,
        λ a lo hi. protect-in middle (b + page + size) page prot_n a lo hi,
      ),
    )

pub setup_stack-IsGuarded :
    (page : ℕ) (p : ThreadParams) (s : Space) (top : ℕ) (s' : Space)
    → page < 2 ^ 31
    → p.stack_size < 2 ^ 31
    → s.map_base ≤ address_space
    → setup_stack page p s ≡ done (top, s')
    → (top ≡ s.map_base + page)
      × ((top + p.stack_size ≤ address_space) × IsGuarded page top p.stack_size s'.prot)
unfolding setup_stack
setup_stack-IsGuarded page p s top s' small_page small le e =
    let size = p.stack_size in
    let one =
      then-done (map_dynamic page s page prot_n)
        (λ below. map_dynamic page below.1 size prot_rw >>= (λ stack.
          map_dynamic page stack.1 page prot_n >>= (λ above. done (stack.0, above.1))))
        (top, s') e in
    let below = one.0 in
    let two =
      then-done (map_dynamic page below.1 size prot_rw)
        (λ stack. map_dynamic page stack.1 page prot_n >>= (λ above. done (stack.0, above.1)))
        (top, s') one.1.1 in
    let stack = two.0 in
    let three =
      then-done (map_dynamic page stack.1 page prot_n) (λ above. done (stack.0, above.1)) (top, s')
        two.1.1 in
    let above = three.0 in
    let b1 = map_dynamic-base page s page prot_n below.0 below.1 small_page le one.1.0 in
    let b2 = map_dynamic-base page below.1 size prot_rw stack.0 stack.1 small b1.2 two.1.0 in
    let b3 = map_dynamic-base page stack.1 page prot_n above.0 above.1 small_page b2.2 three.1.0 in
    let b = s.map_base in
    let last = ap (λ o. get_done o (top, s')) three.1.1 in
    let at : b + page ≡ top = sym (b2.0 ∙ b1.1) ∙ ap (λ (r : ℕ × Space). r.0) last in
    let third : stack.1.map_base ≡ b + page + size = b2.1 ∙ ap (λ x. x + size) b1.1 in
    let prots : layers s.prot b page size ≡ s'.prot =
      sym (
        b3.3
        ∙ ap₂ (λ (f : ℕ → Prot) (x : ℕ). protect f x page prot_n)
            (b2.3 ∙ ap₂ (λ (f : ℕ → Prot) (x : ℕ). protect f x size prot_rw) b1.3 b1.1) third)
      ∙ ap (λ (r : ℕ × Space). r.1.prot) last in
    (
      sym at,
      (
        omega (arith, at, third, b2.2),
        subst (λ t. IsGuarded page t size s'.prot) at
            (subst (λ f. IsGuarded page (b + page) size f) prots
              (layers-IsGuarded s.prot b page size)),
      ),
    )
