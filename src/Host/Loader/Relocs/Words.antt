-- ===== src/Host/Loader/Relocs/Words.antt =====
-- A relocated word, whichever of its two ways `process_reloc` in src/uwin/ldr.cpp takes.
use uwin_old.Common.{ℕ, ◌+◌, ◌/◌, ◌%◌, ◌^◌}
use uwin_old.Common.{◌≡◌, refl, ap, ◌∙◌, fun_ext, inl, inr, arith}
use uwin_old.Common.{◌==◌, Bool-cases}
use uwin_old.Common.{done, u32}
use uwin_old.Common.Bytes.{Memory, load, store_word}
use uwin_old.Host.Loader.Relocs.{process_reloc, target, four_bytes, set_four_bytes}

-- A word with the difference added to it.
abbrev pub shifted : ℕ → ℕ → Memory → Memory
shifted difference a m = store_word 4 a (u32 (load 4 a m + difference)) m

four_bytes_lem : (a : ℕ) (m : Memory) → four_bytes a m ≡ load 4 a m
unfolding load
four_bytes_lem a m =
    let two : a + 1 + 1 ≡ a + 2 = omega arith in
    let three : a + 1 + 1 + 1 ≡ a + 3 = omega arith in omega (arith, ap m two, ap m three)

set_four_bytes_lem : (a v : ℕ) (m : Memory) (b : ℕ) → set_four_bytes a v m b ≡ store_word 4 a v m b
unfolding store_word
set_four_bytes_lem a v m b = ground arith

shifted-bytes :
    (d a : ℕ) (m : Memory) → set_four_bytes a (u32 (four_bytes a m + d)) m ≡ shifted d a m
shifted-bytes d a m =
    fun_ext (λ b. set_four_bytes_lem a (u32 (four_bytes a m + d)) m b)
    ∙ ap (λ w. store_word 4 a (u32 (w + d)) m) (four_bytes_lem a m)

-- An entry of type HIGHLOW adds the difference to the word at its target, aligned or not.
pub process_reloc-shifted :
    (image_base page_rva relocation d : ℕ) (m : Memory)
    → relocation / 2 ^ 12 ≡ 3
    → process_reloc image_base page_rva relocation d m
      ≡ done (shifted d (target image_base page_rva relocation) m)
unfolding process_reloc
process_reloc-shifted image_base page_rva relocation d m high_low =
    let a = target image_base page_rva relocation in
    rw high_low (elim (Bool-cases (a % 4 == 0)) [
      | inl aligned ↦ rw aligned refl
      | inr unaligned ↦ rw unaligned (ap (λ o. done o) (shifted-bytes d a m))
    ])
