-- ===== src/Jit/Strings/Moves.antt =====
-- `rep movs` and `rep stos` of src/uwin-jit/aarch64_code_generator.cpp against the processor's manual.
use uwin_old.Common.{ℕ, zero, suc, ◌+◌, ◌-◌, ◌*◌, ◌^◌, ◌≤◌, ◌<◌}
use uwin_old.Common.{◌≡◌, sym, ap, ap₂, ◌∙◌, fun_ext, ◌⊎◌, inl, inr, arith}
use uwin_old.Common.{◌&&◌}
use uwin_old.Common.{ltb, if◌then◌else◌}
use uwin_old.Common.{u32}
use uwin_old.Common.Bytes.{Memory, copied}
use mathlib.Core.Path.{subst}
use native.Mathlib.Decide.{dec_lt, ℕ_discrete}
use uwin_old.Jit.Strings.{Cpu, BlockMove, rep_movs}
use uwin_old.Jit.Strings.Reference.{rep_movs_ref}

-- The C standard on memmove: the destination gets what the source held before the call.
abbrev pub IsMemmove : BlockMove → Type 0
IsMemmove memmove = (d s n : ℕ) (m : Memory) (a : ℕ) → memmove d s n m a ≡ copied d s n m a

apart_next : (s d k q : ℕ) → (d ≤ s) ⊎ (s + (k + q) ≤ d) → (d + k ≤ s + k) ⊎ (s + k + q ≤ d + k)
apart_next s d k q (inl le) = inl (omega arith)
apart_next s d k q (inr le) = inr (omega arith)

copied-in :
    (d s n : ℕ) (m : Memory) (a : ℕ) → d ≤ a → a < d + n → copied d s n m a ≡ m (s + (a - d))
copied-in d s n m a lo hi = ground (arith, lo, hi)

copied-out : (d s n : ℕ) (m : Memory) (a : ℕ) → (a < d) ⊎ (d + n ≤ a) → copied d s n m a ≡ m a
copied-out d s n m a (inl lt) = ground (arith, lt)
copied-out d s n m a (inr ge) = ground (arith, ge)

source_apart :
    (d s k q a : ℕ)
    → (d ≤ s) ⊎ (s + (k + q) ≤ d)
    → d + k ≤ a
    → a < d + k + q
    → (s + (a - d) < d) ⊎ (d + k ≤ s + (a - d))
source_apart d s k q a (inl le) lo hi = inr (omega arith)
source_apart d s k q a (inr le) lo hi = inl (omega arith)

-- Two blocks behind each other.
copied-copied :
    (d s k q : ℕ) (m : Memory) (a : ℕ)
    → (d ≤ s) ⊎ (s + (k + q) ≤ d)
    → copied (d + k) (s + k) q (copied d s k m) a ≡ copied d s (k + q) m a
copied-copied d s k q m a apart = elim (dec_lt a (d + k)) [
  | yes first ↦ ground (arith, first)
  | no not_first ↦ elim (dec_lt a (d + k + q)) [
    | yes second ↦
        let at : s + k + (a - (d + k)) ≡ s + (a - d) = omega arith in
        copied-in (d + k) (s + k) q (copied d s k m) a (omega arith) second
        ∙ ap (copied d s k m) at
        ∙ copied-out d s k m (s + (a - d)) (source_apart d s k q a apart (omega arith) second)
        ∙ sym (copied-in d s (k + q) m a (omega arith) (omega arith))
    | no past ↦
        copied-out (d + k) (s + k) q (copied d s k m) a (inr (omega arith))
        ∙ copied-out d s k m a (inr (omega arith))
        ∙ sym (copied-out d s (k + q) m a (inr (omega arith)))
  ]
]

-- Copying element by element copies the block, unless it runs into what it has still to read.
rep_movs_ref-copied :
    (ecx size esi edi : ℕ) (m : Memory) (a : ℕ)
    → (edi ≤ esi) ⊎ (esi + ecx * size ≤ edi)
    → rep_movs_ref ecx size esi edi m a ≡ copied edi esi (ecx * size) m a
unfolding rep_movs_ref
rep_movs_ref-copied zero size esi edi m a apart = ground arith
rep_movs_ref-copied (suc ecx) size esi edi m a apart =
    let more : suc ecx * size ≡ size + ecx * size = grind arith in
    rep_movs_ref-copied ecx size (esi + size) (edi + size) (copied edi esi size m) a
      (apart_next esi edi size (ecx * size) (subst (λ k. (edi ≤ esi) ⊎ (esi + k ≤ edi)) more apart))
    ∙ copied-copied edi esi size (ecx * size) m a
        (subst (λ k. (edi ≤ esi) ⊎ (esi + k ≤ edi)) more apart)
    ∙ ap (λ k. copied edi esi k m a) (sym more)

-- The state that the manual describes after `rep movs`.
abbrev pub movs_ref : ℕ → Cpu → Cpu
movs_ref size c = record c {
  memory = rep_movs_ref c.ecx size c.esi c.edi c.memory;
  ecx = 0;
  esi = c.esi + c.ecx * size;
  edi = c.edi + c.ecx * size;
}

-- For blocks below the top of the address space that the copy does not run into (the destination starts
-- at or below the source, or behind its end), `rep_movs_runtime_helper` leaves the registers
-- and the memory that the processor's manual describes, with the memmove of the C standard.
pub rep_movs_lem :
    (memmove : BlockMove) (size : ℕ) (c : Cpu)
    → IsMemmove memmove
    → c.esi + c.ecx * size < 2 ^ 32
    → c.edi + c.ecx * size < 2 ^ 32
    → (c.edi ≤ c.esi) ⊎ (c.esi + c.ecx * size ≤ c.edi)
    → rep_movs memmove size c ≡ movs_ref size c
unfolding rep_movs
rep_movs_lem memmove size c is lo hi apart =
    let num : u32 (c.ecx * size) ≡ c.ecx * size = omega arith in
    let mem : memmove c.edi c.esi (u32 (c.ecx * size)) c.memory
        ≡ rep_movs_ref c.ecx size c.esi c.edi c.memory =
      fun_ext (λ a.
        is c.edi c.esi (u32 (c.ecx * size)) c.memory a
        ∙ ap (λ k. copied c.edi c.esi k c.memory a) num
        ∙ sym (rep_movs_ref-copied c.ecx size c.esi c.edi c.memory a apart)) in
    let si : u32 (c.esi + u32 (c.ecx * size)) ≡ c.esi + c.ecx * size = omega (arith, num) in
    let di : u32 (c.edi + u32 (c.ecx * size)) ≡ c.edi + c.ecx * size = omega (arith, num) in
    λ i. record { eax = c.eax; ecx = 0; esi = si i; edi = di i; memory = mem i }

copied-first : (s : ℕ) (m : Memory) → copied (s + 1) s 1 m (s + 1) ≡ m s
copied-first s m =
    let at : s + (s + 1 - (s + 1)) ≡ s = omega arith in
    copied-in (s + 1) s 1 m (s + 1) (omega arith) (omega arith) ∙ ap m at

-- Where the destination starts just behind the source, the processor repeats the first byte over
-- the whole block.
rep_movs_ref-repeats :
    (n s : ℕ) (m : Memory) (a : ℕ)
    → rep_movs_ref n 1 s (s + 1) m a ≡ (if ltb s a && ltb a (s + 1 + n) then m s else m a)
unfolding rep_movs_ref
rep_movs_ref-repeats zero s m a = ground arith
rep_movs_ref-repeats (suc n) s m a =
    rep_movs_ref-repeats n (s + 1) (copied (s + 1) s 1 m) a
    ∙ (let first = copied-first s m in
        elim (ℕ_discrete a (s + 1)) [
          | yes at ↦ ground (arith, at, first, ap (copied (s + 1) s 1 m) at)
          | no off ↦ elim (dec_lt a (s + 1)) [
            | yes lt ↦ ground (arith, lt, copied-out (s + 1) s 1 m a (inl lt))
            | no ge ↦ ground (arith, first, copied-out (s + 1) s 1 m a (inr (omega arith)))
          ]
        ])

-- With the byte behind the source as the destination the helper moves the block up by one byte, where
-- the processor repeats the first byte of the source over the whole of it.
pub rep_movs_differs :
    (memmove : BlockMove) (c : Cpu) (k : ℕ)
    → IsMemmove memmove
    → c.edi ≡ c.esi + 1
    → c.edi + c.ecx < 2 ^ 32
    → k < c.ecx
    → ((rep_movs memmove 1 c).memory (c.esi + 1 + k) ≡ c.memory (c.esi + k))
      × ((movs_ref 1 c).memory (c.esi + 1 + k) ≡ c.memory c.esi)
unfolding rep_movs
rep_movs_differs memmove c k is at hi lt =
    let num : u32 (c.ecx * 1) ≡ c.ecx = omega arith in
    let off : c.esi + (c.esi + 1 + k - (c.esi + 1)) ≡ c.esi + k = omega arith in
    (
      is c.edi c.esi (u32 (c.ecx * 1)) c.memory (c.esi + 1 + k)
          ∙ ap₂ (λ (d n : ℕ). copied d c.esi n c.memory (c.esi + 1 + k)) at num
          ∙ copied-in (c.esi + 1) c.esi c.ecx c.memory (c.esi + 1 + k) (omega arith) (omega arith)
          ∙ ap c.memory off,
      ap (λ d. rep_movs_ref c.ecx 1 c.esi d c.memory (c.esi + 1 + k)) at
          ∙ rep_movs_ref-repeats c.ecx c.esi c.memory (c.esi + 1 + k)
          ∙ ground (arith, lt),
    )
