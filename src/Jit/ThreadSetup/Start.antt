-- ===== src/Jit/ThreadSetup/Start.antt =====
-- Where a new thread of src/uwin/jit_cpu_loop.cpp starts, and what its TEB says of its stack.
use uwin_old.Common.{then-done}
use uwin_old.Common.{ℕ, ◌+◌, ◌*◌, ◌^◌, ◌≤◌, ◌<◌}
use uwin_old.Common.{◌≡◌, refl, ap, ◌∙◌, arith}
use uwin_old.Common.{Outcome, done, ◌>>=◌, u32}
use mathlib.Core.Path.{subst}
use uwin_old.Common.{get_done}
use uwin_old.Common.Bytes.{Memory, load}
use uwin_old.Host.MemoryMap.{Space, prot_rw, map_dynamic, address_space}
use uwin_old.Host.MemoryMap.Regions.{map_dynamic-base}
use uwin_old.Jit.ThreadSetup.{ThreadParams, NewThread, write_teb, setup_stack, setup_thread}
use uwin_old.Jit.ThreadSetup.Guards.{IsGuarded, setup_stack-IsGuarded}
use uwin_old.Jit.ThreadSetup.Teb.{write_teb-stack}

-- What a set-up that ended did: three pages, the stack, the registers and the TEB.
setup_thread-done :
    (page : ℕ) (p : ThreadParams) (s : Space) (m : Memory) (t : NewThread)
    → page < 2 ^ 31
    → s.map_base ≤ address_space
    → setup_thread page p s m ≡ done t
    → (s' : Space) × ((s'.map_base ≡ s.map_base + 3 * page)
        × ((s'.map_base ≤ address_space)
            × ((setup_stack page p s' ≡ done (t.stack_top, t.space))
                × ((t.esp ≡ u32 (t.stack_top + p.stack_size))
                    × (t.memory ≡ write_teb p 0 t.teb_base m)))))
unfolding setup_thread
setup_thread-done page p s m t small le e =
    let thread : ℕ → ℕ → ℕ → ℕ × Space → NewThread = λ gdt teb tls stack. record {
      gdt_base = gdt;
      teb_base = teb;
      tls_base = tls;
      stack_top = stack.0;
      eax = p.entry_point;
      ebx = p.entry_param;
      esp = u32 (stack.0 + p.stack_size);
      eip = p.init_entry;
      space = stack.1;
      memory = write_teb p 0 teb m;
    } in
    let map_page : Space → Outcome (ℕ × Space) = λ s. map_dynamic page s page prot_rw in
    let one =
      then-done (map_page s)
        (λ gdt. map_page gdt.1 >>= (λ teb.
          map_page teb.1
          >>= (λ tls. setup_stack page p tls.1 >>= (λ k. done (thread gdt.0 teb.0 tls.0 k)))))
        t e in
    let gdt = one.0 in
    let two =
      then-done (map_page gdt.1)
        (λ teb.
          map_page teb.1
          >>= (λ tls. setup_stack page p tls.1 >>= (λ k. done (thread gdt.0 teb.0 tls.0 k))))
        t one.1.1 in
    let teb = two.0 in
    let three =
      then-done (map_page teb.1)
        (λ tls. setup_stack page p tls.1 >>= (λ k. done (thread gdt.0 teb.0 tls.0 k))) t two.1.1 in
    let tls = three.0 in
    let four =
      then-done (setup_stack page p tls.1) (λ k. done (thread gdt.0 teb.0 tls.0 k)) t three.1.1 in
    let b1 = map_dynamic-base page s page prot_rw gdt.0 gdt.1 small le one.1.0 in
    let b2 = map_dynamic-base page gdt.1 page prot_rw teb.0 teb.1 small b1.2 two.1.0 in
    let b3 = map_dynamic-base page teb.1 page prot_rw tls.0 tls.1 small b2.2 three.1.0 in
    let made : thread gdt.0 teb.0 tls.0 four.0 ≡ t = ap (λ o. get_done o t) four.1.1 in
    (
      tls.1,
      (
        omega (arith, b1.1, b2.1, b3.1),
        (
          b3.2,
          (
            four.1.0 ∙ ap (λ (x : NewThread). done (x.stack_top, x.space)) made,
            subst
                (λ (x : NewThread).
                  (x.esp ≡ u32 (x.stack_top + p.stack_size))
                  × (x.memory ≡ write_teb p 0 x.teb_base m))
                made (refl, refl),
          ),
        ),
      ),
    )

-- A thread that is set up, with a stack and pages of less than 2^31 bytes, starts at the end of its stack,
-- which it can read and write, and the page before the stack and the page behind it are reserved
-- without access.
pub setup_thread-IsGuarded :
    (page : ℕ) (p : ThreadParams) (s : Space) (m : Memory) (t : NewThread)
    → page < 2 ^ 31
    → p.stack_size < 2 ^ 31
    → s.map_base ≤ address_space
    → setup_thread page p s m ≡ done t
    → (t.esp ≡ t.stack_top + p.stack_size) × IsGuarded page t.stack_top p.stack_size t.space.prot
setup_thread-IsGuarded page p s m t small_page small le e =
    let steps = setup_thread-done page p s m t small_page le e in
    let stack =
      setup_stack-IsGuarded page p steps.0 t.stack_top t.space small_page small steps.1.1.0
        steps.1.1.1.0 in
    (omega (arith, steps.1.1.1.1.0, stack.1.0), stack.1.1)

-- The TEB of the thread gives the limits of the stack as 0 and its size, though the stack lies
-- behind four pages that the set-up maps.
pub setup_thread-stack_limits :
    (page : ℕ) (p : ThreadParams) (s : Space) (m : Memory) (t : NewThread)
    → page < 2 ^ 31
    → p.stack_size < 2 ^ 31
    → s.map_base ≤ address_space
    → setup_thread page p s m ≡ done t
    → (t.stack_top ≡ s.map_base + 4 * page)
      × ((load 4 (t.teb_base + 4 * 1) t.memory ≡ p.stack_size)
          × (load 4 (t.teb_base + 4 * 2) t.memory ≡ 0))
setup_thread-stack_limits page p s m t small_page small le e =
    let steps = setup_thread-done page p s m t small_page le e in
    let stack =
      setup_stack-IsGuarded page p steps.0 t.stack_top t.space small_page small steps.1.1.0
        steps.1.1.1.0 in
    let limits = write_teb-stack p 0 t.teb_base m in
    let memory = steps.1.1.1.1.1 in
    (
      omega (arith, stack.0, steps.1.0),
      (
        ap (λ x. load 4 (t.teb_base + 4 * 1) x) memory ∙ limits.0 ∙ omega arith,
        ap (λ x. load 4 (t.teb_base + 4 * 2) x) memory ∙ limits.1,
      ),
    )
