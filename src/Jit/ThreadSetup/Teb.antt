-- ===== src/Jit/ThreadSetup/Teb.antt =====
-- What the stores of `setup_teb` in src/uwin/jit_cpu_loop.cpp leave in the TEB.
use uwin_old.Common.{ℕ, ◌+◌, ◌*◌, ◌%◌, ◌^◌, ◌<◌}
use uwin_old.Common.{◌≡◌, ◌∙◌, ◌≢◌, inl, inr, arith}
use uwin_old.Common.{u32}
use uwin_old.Common.Bytes.{Memory, load, store_word-outside, load-same, load-store_word}
use native.Mathlib.Decide.{dec_lt}
use uwin_old.Jit.ThreadSetup.{ThreadParams, set_teb, write_teb}

-- What a stored entry of the TEB leaves of another.
set_teb-other :
    (teb i j v : ℕ) (m : Memory)
    → i ≢ j
    → load 4 (teb + 4 * j) (set_teb teb i v m) ≡ load 4 (teb + 4 * j) m
set_teb-other teb i j v m off = load-same 4 (teb + 4 * j) (set_teb teb i v m) m (λ b lo hi.
    store_word-outside 4 (teb + 4 * i) v m b (elim (dec_lt i j) [
      | yes lt ↦ inr (omega (arith, lo, lt))
      | no ge ↦ inl (omega (arith, hi, ge, off))
    ]))

-- The two entries of the TEB for the stack, as `setup_teb` stores them.
pub write_teb-stack :
    (p : ThreadParams) (top teb : ℕ) (m : Memory)
    → (load 4 (teb + 4 * 1) (write_teb p top teb m) ≡ u32 (top + p.stack_size) % 2 ^ 32)
      × (load 4 (teb + 4 * 2) (write_teb p top teb m) ≡ top % 2 ^ 32)
unfolding write_teb
write_teb-stack p top teb m =
    let m1 = set_teb teb 0x1 (u32 (top + p.stack_size)) (set_teb teb 0x0 0xffffffff m) in
    let m2 = set_teb teb 0x2 top m1 in
    let m6 = set_teb teb 0x6 teb m2 in
    let m7 = set_teb teb 0x7 p.library_init_list m6 in
    let m8 = set_teb teb 0x8 p.process_id m7 in
    let m9 = set_teb teb 0x9 p.thread_id m8 in
    let ma = set_teb teb 0xa p.command_line m9 in
    let later : (j : ℕ)
        → j < 6
        → load 4 (teb + 4 * j) (set_teb teb 0xd 0 ma) ≡ load 4 (teb + 4 * j) m2 =
      λ j lt.
        set_teb-other teb 0xd j 0 ma (omega (arith, lt))
        ∙ set_teb-other teb 0xa j p.command_line m9 (omega (arith, lt))
        ∙ set_teb-other teb 0x9 j p.thread_id m8 (omega (arith, lt))
        ∙ set_teb-other teb 0x8 j p.process_id m7 (omega (arith, lt))
        ∙ set_teb-other teb 0x7 j p.library_init_list m6 (omega (arith, lt))
        ∙ set_teb-other teb 0x6 j teb m2 (omega (arith, lt)) in
    (
      later 1 (omega arith)
          ∙ set_teb-other teb 2 1 top m1 (omega arith)
          ∙ load-store_word (teb + 4 * 1) (u32 (top + p.stack_size)) (set_teb teb 0x0 0xffffffff m),
      later 2 (omega arith) ∙ load-store_word (teb + 4 * 2) top m1,
    )
