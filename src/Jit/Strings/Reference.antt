-- ===== src/Jit/Strings/Reference.antt =====
-- The repeated string instructions as the processor's manual describes them, one element after the
-- other, for blocks that do not reach over the top of the address space.
use uwin_old.Common.{ℕ, zero, suc, ◌+◌}
use uwin_old.Common.{Bool}
use uwin_old.Common.{if◌then◌else◌}
use uwin_old.Common.Bytes.{Memory, copied, store_word}

-- `while (ECX != 0) { [EDI] = [ESI]; ESI += size; EDI += size; ECX--; }`
unfoldable pub rep_movs_ref : ℕ → ℕ → ℕ → ℕ → Memory → Memory
rep_movs_ref zero size esi edi m = m
rep_movs_ref (suc ecx) size esi edi m =
    rep_movs_ref ecx size (esi + size) (edi + size) (copied edi esi size m)

-- `while (ECX != 0) { [EDI] = EAX; EDI += size; ECX--; }`
unfoldable pub rep_stos_ref : ℕ → ℕ → ℕ → ℕ → Memory → Memory
rep_stos_ref zero size edi val m = m
rep_stos_ref (suc ecx) size edi val m =
    rep_stos_ref ecx size (edi + size) val (store_word size edi val m)

-- `while (ECX != 0) { compare; step; ECX--; if (!goes on) break; }`: what is left of ECX, and how many
-- elements were looked at.
unfoldable pub rep_compare_ref : ℕ → (ℕ → Bool) → ℕ → ℕ × ℕ
rep_compare_ref zero goes_on i = (0, i)
rep_compare_ref (suc ecx) goes_on i =
    let rest = rep_compare_ref ecx goes_on (i + 1) in if goes_on i then rest else (ecx, i + 1)
