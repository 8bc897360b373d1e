-- ===== src/Jit/Strings/Stores.antt =====
-- `rep stos` of src/uwin-jit/aarch64_code_generator.cpp against the processor's manual.
use uwin_old.Common.{ℕ, zero, suc, ◌+◌, ◌*◌, ◌%◌, ◌^◌, ◌<◌}
use uwin_old.Common.{◌≡◌, refl, sym, ap, ◌∙◌, fun_ext, inl, inr, arith}
use uwin_old.Common.{◌&&◌, ◌||◌}
use uwin_old.Common.{ltb, leb, ◌==◌, if◌then◌else◌, Bool-cases}
use uwin_old.Common.{u32}
use uwin_old.Common.Bytes.{Memory, store_word, store_word-zero, store_word-byte}
use uwin_old.Jit.Strings.{Cpu, BlockMove, rep_stos, fill}
use uwin_old.Jit.Strings.Reference.{rep_stos_ref}

-- One value in every byte of a block.
abbrev pub filled : ℕ → ℕ → ℕ → Memory → Memory
filled d n b m a = if leb d a && ltb a (d + n) then b else m a

-- The C standard on memset: every byte of the block gets the value.
abbrev pub IsMemset : BlockMove → Type 0
IsMemset memset = (d v n : ℕ) (m : Memory) (a : ℕ) → memset d v n m a ≡ filled d n (v % 256) m a

fill-ref : (n size d v : ℕ) (m : Memory) → fill n size d v m ≡ rep_stos_ref n size d v m
unfolding fill rep_stos_ref
fill-ref zero size d v m = refl
fill-ref (suc n) size d v m = fill-ref n size (d + size) v (store_word size d v m)

-- An element all of whose bytes are the same fills the block with it.
module _ (size v b : ℕ)
    (uniform : (d : ℕ) (m : Memory) (a : ℕ) → store_word size d v m a ≡ filled d size b m a) where
  rep_stos_ref-filled :
      (n d : ℕ) (m : Memory) (a : ℕ) → rep_stos_ref n size d v m a ≡ filled d (n * size) b m a
  unfolding rep_stos_ref
  rep_stos_ref-filled zero d m a = ground arith
  rep_stos_ref-filled (suc n) d m a =
      let more : suc n * size ≡ size + n * size = grind arith in
      rep_stos_ref-filled n (d + size) (store_word size d v m) a
      ∙ rw more (ground (arith, uniform d m a))

-- Both ways of the helper.
stored :
    (memset : BlockMove) (n size d v : ℕ) (m : Memory)
    → IsMemset memset
    → (if (v == 0) || (size == 1) then memset d v (n * size) m else fill n size d v m)
      ≡ rep_stos_ref n size d v m
stored memset n size d v m is = elim (Bool-cases (v == 0)) [
  | inl zero_v ↦
      let at : v ≡ 0 = ground (arith, zero_v) in
      rw zero_v (
        fun_ext (λ a.
          is d v (n * size) m a
          ∙ ap (λ b. filled d (n * size) b m a) (ap (λ w. w % 256) at)
          ∙ sym (rep_stos_ref-filled size 0 0 (store_word-zero size) n d m a)
          ∙ ap (λ w. rep_stos_ref n size d w m a) (sym at)))
  | inr some_v ↦ elim (Bool-cases (size == 1)) [
    | inl bytes ↦
        let at : size ≡ 1 = ground (arith, bytes) in
        rw (some_v, bytes)
          (fun_ext (λ a.
            is d v (n * size) m a
            ∙ ap (λ k. filled d (n * k) (v % 256) m a) at
            ∙ sym (rep_stos_ref-filled 1 v (v % 256) (λ b. store_word-byte b v) n d m a)
            ∙ ap (λ k. rep_stos_ref n k d v m a) (sym at)))
    | inr wide ↦ rw (some_v, wide) (fill-ref n size d v m)
  ]
]

-- The state that the manual describes after `rep stos`.
abbrev pub stos_ref : ℕ → Cpu → Cpu
stos_ref size c = record c {
  memory = rep_stos_ref c.ecx size c.edi (c.eax % 256 ^ size) c.memory;
  ecx = 0;
  edi = c.edi + c.ecx * size;
}

-- For a block below the top of the address space `rep_stos_runtime_helper` leaves the registers and the
-- memory that the processor's manual describes, whichever of its two ways it takes, with the
-- memset of the C standard.
pub rep_stos_lem :
    (memset : BlockMove) (size : ℕ) (c : Cpu)
    → IsMemset memset
    → c.edi + c.ecx * size < 2 ^ 32
    → rep_stos memset size c ≡ stos_ref size c
unfolding rep_stos
rep_stos_lem memset size c is lt =
    let mem = stored memset c.ecx size c.edi (c.eax % 256 ^ size) c.memory is in
    let di : u32 (c.edi + c.ecx * size) ≡ c.edi + c.ecx * size = omega arith in
    λ i. record { eax = c.eax; ecx = 0; esi = c.esi; edi = di i; memory = mem i }
