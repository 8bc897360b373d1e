-- ===== src/Jit/Strings/Scans.antt =====
-- `scas` and `cmps` of src/uwin-jit/aarch64_code_generator.cpp against the processor's manual.
use uwin_old.Common.{ℕ, zero, suc, ◌+◌, ◌-◌, ◌*◌, ◌%◌, ◌^◌, ◌≤◌, ◌<◌}
use uwin_old.Common.{◌≡◌, refl, ap, ◌∙◌, inl, inr, arith}
use uwin_old.Common.{Bool, true, false, not}
use uwin_old.Common.{◌==◌, if◌then◌else◌, Bool-cases}
use uwin_old.Common.{u32}
use uwin_old.Common.Bytes.{load}
use native.Mathlib.Nat.{mul-le-mul_left}
use uwin_old.Jit.Strings.{
  Cpu, count_while, scas, repe_cmps, Mnemonic, cmpsb, cmpsw, cmpsd, emit_cmps,
}
use uwin_old.Jit.Strings.Reference.{rep_compare_ref}

stopped : (n : ℕ) (goes_on : ℕ → Bool) (i : ℕ) → count_while n goes_on i false ≡ i
unfolding count_while
stopped zero goes_on i = refl
stopped (suc n) goes_on i = refl

-- The element loop of the helpers and that of the manual stop at the same element.
count_while-ref :
    (n : ℕ) (goes_on : ℕ → Bool) (i : ℕ)
    → (count_while n goes_on i true ≡ (rep_compare_ref n goes_on i).1)
      × ((rep_compare_ref n goes_on i).0 + (rep_compare_ref n goes_on i).1 ≡ n + i)
unfolding count_while rep_compare_ref
count_while-ref zero goes_on i = (refl, refl)
count_while-ref (suc n) goes_on i =
    let rest = count_while-ref n goes_on (i + 1) in
    elim (Bool-cases (goes_on i)) [
      | inl more ↦ rw more (rest.0, omega (arith, rest.1))
      | inr stop ↦ rw stop (stopped n goes_on (i + 1), omega arith)
    ]

-- What the helpers count is within the elements.
counted : (n : ℕ) (goes_on : ℕ → Bool) → (rep_compare_ref n goes_on 0).1 ≤ n
counted n goes_on = let rest = count_while-ref n goes_on 0 in omega (arith, rest.1)

left :
    (n : ℕ) (goes_on : ℕ → Bool)
    → n - (rep_compare_ref n goes_on 0).1 ≡ (rep_compare_ref n goes_on 0).0
left n goes_on = let rest = count_while-ref n goes_on 0 in omega (arith, rest.1)

within : (b size i n : ℕ) → i ≤ n → b + size * n < 2 ^ 32 → u32 (b + size * i) ≡ b + size * i
within b size i n le lt = let m : size * i ≤ size * n = mul-le-mul_left size le in omega (arith, m)

-- The state that the manual describes after `repe scas` and `repne scas`.
abbrev pub scas_goes_on : Bool → ℕ → Cpu → ℕ → Bool
scas_goes_on equal size c i =
    let is_cmp = load size (c.edi + size * i) c.memory == c.eax % 256 ^ size in
    if equal then is_cmp else not is_cmp

abbrev pub scas_ref : Bool → ℕ → Cpu → Cpu
scas_ref equal size c =
    let r = rep_compare_ref c.ecx (scas_goes_on equal size c) 0 in
    record c { edi = c.edi + size * r.1; ecx = r.0 }

-- For a block below the top of the address space, the helpers of `repe scas` and `repne scas` stop behind
-- the element where the processor stops, with the same ECX and EDI.
pub scas_lem :
    (equal : Bool) (size : ℕ) (c : Cpu)
    → c.edi + size * c.ecx < 2 ^ 32
    → scas equal size c ≡ scas_ref equal size c
unfolding scas
scas_lem equal size c lt =
    let goes_on = scas_goes_on equal size c in
    let i = (count_while-ref c.ecx goes_on 0).0 in
    let di : u32 (c.edi + size * count_while c.ecx goes_on 0 true)
        ≡ c.edi + size * (rep_compare_ref c.ecx goes_on 0).1 =
      ap (λ k. u32 (c.edi + size * k)) i
      ∙ within c.edi size (rep_compare_ref c.ecx goes_on 0).1 c.ecx (counted c.ecx goes_on) lt in
    let cx = ap (λ k. c.ecx - k) i ∙ left c.ecx goes_on in
    λ j. record { eax = c.eax; ecx = cx j; esi = c.esi; edi = di j; memory = c.memory }

abbrev pub cmps_goes_on : ℕ → Cpu → ℕ → Bool
cmps_goes_on size c i =
    load size (c.esi + size * i) c.memory == load size (c.edi + size * i) c.memory

abbrev pub cmps_ref : ℕ → Cpu → Cpu
cmps_ref size c =
    let r = rep_compare_ref c.ecx (cmps_goes_on size c) 0 in
    record c { esi = c.esi + size * r.1; edi = c.edi + size * r.1; ecx = r.0 }

repe_cmps_lem :
    (size : ℕ) (c : Cpu)
    → c.esi + size * c.ecx < 2 ^ 32
    → c.edi + size * c.ecx < 2 ^ 32
    → repe_cmps size c ≡ cmps_ref size c
unfolding repe_cmps
repe_cmps_lem size c ls ld =
    let goes_on = cmps_goes_on size c in
    let i = (count_while-ref c.ecx goes_on 0).0 in
    let n = (rep_compare_ref c.ecx goes_on 0).1 in
    let si =
      ap (λ k. u32 (c.esi + size * k)) i ∙ within c.esi size n c.ecx (counted c.ecx goes_on) ls in
    let di =
      ap (λ k. u32 (c.edi + size * k)) i ∙ within c.edi size n c.ecx (counted c.ecx goes_on) ld in
    let cx = ap (λ k. c.ecx - k) i ∙ left c.ecx goes_on in
    λ j. record { eax = c.eax; ecx = cx j; esi = si j; edi = di j; memory = c.memory }

-- The sizes of the elements that the generated code compares.
abbrev pub compared : Mnemonic → ℕ
compared cmpsb = 1
compared cmpsw = 2
compared cmpsd = 1

-- For blocks below the top of the address space, the generated code for `repe cmpsb` and `repe cmpsw` stops
-- where the processor does, with the same ECX, ESI and EDI; that for `repe cmpsd` does what the
-- processor does for `repe cmpsb`: it compares ECX bytes.
pub emit_cmps_lem :
    (m : Mnemonic) (c : Cpu)
    → c.esi + compared m * c.ecx < 2 ^ 32
    → c.edi + compared m * c.ecx < 2 ^ 32
    → emit_cmps m c ≡ cmps_ref (compared m) c
unfolding emit_cmps
emit_cmps_lem cmpsb c ls ld = repe_cmps_lem 1 c ls ld
emit_cmps_lem cmpsw c ls ld = repe_cmps_lem 2 c ls ld
emit_cmps_lem cmpsd c ls ld = repe_cmps_lem 1 c ls ld
