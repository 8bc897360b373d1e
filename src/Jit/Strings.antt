-- ===== src/Jit/Strings.antt =====
-- The string instructions of src/uwin-jit/aarch64_code_generator.cpp: the helpers that the generated code
-- calls for a repeated instruction. The direction is always upwards.
pub mod Reference
pub mod Moves
pub mod Scans
pub mod Stores
mod Tests
use uwin_old.Common.{ℕ, zero, suc, ◌+◌, ◌-◌, ◌*◌, ◌/◌, ◌%◌, ◌^◌, ◌≤◌, ◌<◌, bit_and, bit_or}
use uwin_old.Common.{◌≡◌, refl, sym, ap, ap₂, ◌∙◌, fun_ext, ◌≢◌, ◌↔◌, ◌⊎◌, inl, inr, arith}
use uwin_old.Common.{
  Bool, true, false, not, ◌&&◌, ◌||◌, Option, none, some, List, [], ◌∷◌, ◌++◌, map,
}
use uwin_old.Common.{
  ltb, leb, ◌==◌, if◌then◌else◌, Bool-cases, Option-cases, length, get_elem?, set,
}
use uwin_old.Common.{
  get_or, take, drop, replicate, length-append, length-set, get_elem?-set_self, get_elem?-set_ne,
}
use uwin_old.Common.{
  Outcome, done, panic, ◌>>=◌, ◌>>◌, require, u8, u16, u32, u64, sub32, sub64, signed32,
}
use uwin_old.Common.Int.{ℤ, pos, negsuc, pos_part, neg_part, sub_ℕ, ◌+ℤ◌, ◌-ℤ◌, ◌*ℤ◌, ◌≤ℤ◌, ltb_ℤ}
use uwin_old.Common.Bytes.{Memory, load, store_word}

-- The registers of `cpu_context` that the helpers use, and the guest's memory.
pub record Cpu : Type 0 where
  pub eax : ℕ
  pub ecx : ℕ
  pub esi : ℕ
  pub edi : ℕ
  pub memory : Memory

-- The host's memmove and memset: the memory after a call.
abbrev pub BlockMove : Type 0
BlockMove = ℕ → ℕ → ℕ → Memory → Memory

-- `rep_movs_runtime_helper<elem_size>`
pub rep_movs : BlockMove → ℕ → Cpu → Cpu
rep_movs memmove elem_size c =
    let num = u32 (c.ecx * elem_size) in
    record c {
      memory = memmove c.edi c.esi num c.memory;
      ecx = 0;
      esi = u32 (c.esi + num);
      edi = u32 (c.edi + num);
    }

-- `for (size_t i = 0; i < num; i++) dst[i] = val;`
pub fill : ℕ → ℕ → ℕ → ℕ → Memory → Memory
fill zero size dst val m = m
fill (suc num) size dst val m = fill num size (dst + size) val (store_word size dst val m)

-- `rep_stos_runtime_helper<E>`, with `size` the size of `E`.
pub rep_stos : BlockMove → ℕ → Cpu → Cpu
rep_stos memset size c =
    let val = c.eax % 256 ^ size in
    record c {
      memory =
          if (val == 0) || (size == 1)
          then memset c.edi val (c.ecx * size) c.memory
          else fill c.ecx size c.edi val c.memory;
      ecx = 0;
      edi = u32 (c.edi + c.ecx * size);
    }

-- The loop of the comparing helpers: `goes_on i` is what `cont` becomes at element `i`. It gives the
-- final `i`.
pub count_while : ℕ → (ℕ → Bool) → ℕ → Bool → ℕ
count_while zero goes_on i cont = i
count_while (suc left) goes_on i cont =
    let rest = count_while left goes_on (i + 1) (goes_on i) in if cont then rest else i

-- `repne_scas_runtime_helper<E>` for `equal` false, `repe_scas_runtime_helper<E>` for true
pub scas : Bool → ℕ → Cpu → Cpu
scas equal size c =
    let cmp = c.eax % 256 ^ size in
    let is_cmp : ℕ → Bool = λ i. load size (c.edi + size * i) c.memory == cmp in
    let i = count_while c.ecx (λ i. if equal then is_cmp i else not (is_cmp i)) 0 true in
    record c { edi = u32 (c.edi + size * i); ecx = c.ecx - i }

-- `repe_cmps_runtime_helper<E>`
pub repe_cmps : ℕ → Cpu → Cpu
repe_cmps size c =
    let same : ℕ → Bool =
      λ i. load size (c.esi + size * i) c.memory == load size (c.edi + size * i) c.memory in
    let i = count_while c.ecx same 0 true in
    record c { esi = u32 (c.esi + size * i); edi = u32 (c.edi + size * i); ecx = c.ecx - i }

-- The helper that `emit_instruction` calls for each of the comparisons. The flags, which the code computes
-- behind the call, are left out.
abbrev pub call_cmpsb : Cpu → Cpu
call_cmpsb = repe_cmps 1

abbrev pub call_cmpsw : Cpu → Cpu
call_cmpsw = repe_cmps 2

abbrev pub call_cmpsd : Cpu → Cpu
call_cmpsd = repe_cmps 1

-- The mnemonics of the comparisons, and the call for each.
pub data Mnemonic : Type 0 where
  cmpsb cmpsw cmpsd : Mnemonic

pub emit_cmps : Mnemonic → Cpu → Cpu
emit_cmps cmpsb = call_cmpsb
emit_cmps cmpsw = call_cmpsw
emit_cmps cmpsd = call_cmpsd
