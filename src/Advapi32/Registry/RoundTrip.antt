-- ===== src/Advapi32/Registry/RoundTrip.antt =====
-- What `RegQueryValueExA` of src/uwin/target_dlls/ADVAPI32/advapi32.c reads after `RegSetValueExA`.
use uwin_old.Common.{ℕ, zero, suc, ◌+◌, ◌-◌, ◌^◌, ◌<◌}
use uwin_old.Common.{◌≡◌, refl, sym, ap, ◌∙◌, ◌≢◌, inl, inr, arith}
use uwin_old.Common.{true, false, some, List, [], ◌∷◌, ◌++◌}
use uwin_old.Common.{ltb, leb, if◌then◌else◌, Bool-cases, length}
use uwin_old.Common.{take, length-append}
use uwin_old.Common.{Outcome, done, panic}
use uwin_old.Common.Int.{pos}
use uwin_old.Ksvc.Text.{Text, strlen}
use uwin_old.Ksvc.Text.Scan.{strlen-length}
use uwin_old.Ksvc.Strtol.{strtol}
use uwin_old.Ksvc.Strtol.Digits.{Spells, value_from}
use uwin_old.Ksvc.Strtol.Laws.{bare, clamped, strtol-digits}
use uwin_old.Common.Texts.{same_text, same_text_refl, same_text-eq}
use uwin_old.Advapi32.Registry.{
  Config, cfg_write, Value, reg_dword, reg_sz, reg_set_value, more_data, success, dword_bytes,
  dword, reg_query_value, query_text, other_type,
}

-- The text `t` spells the number `d` in base 16.
pub record IsHex (d : ℕ) (t : Text) : Type 0 where
  pub first : ℕ
  pub rest : Text
  pub digit_ : ℕ
  pub digits : List ℕ
  pub is_text : t ≡ first ∷ rest
  pub spelled : Spells 16 (first ∷ rest) (digit_ ∷ digits)
  pub value : value_from 16 0 (digit_ ∷ digits) ≡ d

-- What is documented of `%08x`: the digits of a word.
abbrev pub IsHex8 : (ℕ → Text) → Type 0
IsHex8 hex8 = (d : ℕ) → d < 2 ^ 32 → IsHex d (hex8 d)

append-nil : (s : Text) → s ++ [] ≡ s
append-nil [] = refl
append-nil (x ∷ s) = ap (λ t. x ∷ t) (append-nil s)

-- The largest number that the reader returns.
abbrev pub saturated : ℕ → ℕ
saturated d = if ltb d (2 ^ 31) then d else 2 ^ 31 - 1

dword-clamped : (d : ℕ) → dword (clamped false d) ≡ saturated d
dword-clamped d = ground arith

strtol-IsHex : (d : ℕ) (t : Text) → IsHex d t → (strtol t false (pos 16)).value ≡ clamped false d
strtol-IsHex d t h =
    rw (h.is_text, sym h.value, sym (append-nil h.rest))
      (ap (λ r. r.value)
        (strtol-digits [] bare h.first h.rest [] h.digit_ h.digits false 16 (omega arith)
          (omega arith) tt h.spelled tt (λ e. (omega arith, omega arith))))

written : (c : Config) (name v : Text) → cfg_write c name v name ≡ some v
written c name v = rw (same_text_refl name) refl

-- A DWORD that is set is read back, in a buffer of four bytes or more, if it is less than 2^31; a
-- larger one is read as 2^31 - 1. A smaller buffer is told that four bytes are needed.
pub query-set_dword :
    (hex8 : ℕ → Text) (c : Config) (name : Text) (d size : ℕ)
    → IsHex8 hex8
    → d < 2 ^ 32
    → (c' : Config) × (reg_set_value hex8 0 c name (reg_dword d) ≡ done c')
      × (reg_query_value 0 c' name size
          ≡ done (if ltb size 4 then more_data 4 else success 4 (dword_bytes (saturated d))))
unfolding reg_set_value reg_query_value
query-set_dword hex8 c name d size is_hex lt =
    let v = b'D' ∷ b'W' ∷ b':' ∷ hex8 d in
    let long : leb 3 (strlen v) ≡ true = rw (strlen-length v) (ground arith) in
    (
      cfg_write c name v,
      refl,
      rw (written c name v, long, strtol-IsHex d (hex8 d) (is_hex d lt), dword-clamped d) refl,
    )

take_all : (n : ℕ) (s : List ℕ) → n ≡ length s → take n s ≡ s
take_all zero [] e = refl
take_all zero (x ∷ s) e = absurd (omega arith)
take_all (suc n) [] e = absurd (omega arith)
take_all (suc n) (x ∷ s) e = ap (λ t. x ∷ t) (take_all n s (omega arith))

-- A text that is set is read back with its terminator in a buffer that holds it; a smaller buffer is
-- told the size that is needed.
pub query-set_sz :
    (hex8 : ℕ → Text) (c : Config) (name t : Text) (size : ℕ)
    → (c' : Config) × (reg_set_value hex8 0 c name (reg_sz t) ≡ done c')
      × (reg_query_value 0 c' name size
          ≡ done (
              if ltb size (length t + 1)
              then more_data (length t + 1)
              else success 1 (t ++ (0 ∷ []))))
unfolding reg_set_value reg_query_value
query-set_sz hex8 c name t size =
    let v = b'S' ∷ b'Z' ∷ b':' ∷ t in
    let long : leb 3 (strlen v) ≡ true = rw (strlen-length v) (ground arith) in
    let needed : strlen v - 3 + 1 ≡ length t + 1 = omega (arith, strlen-length v) in
    let all : take (length t + 1) (t ++ (0 ∷ [])) ≡ t ++ (0 ∷ []) =
      take_all (length t + 1) (t ++ (0 ∷ [])) (omega (arith, length-append t (0 ∷ []))) in
    (cfg_write c name v, refl, rw (written c name v, long, needed, all) refl)

-- Setting a value leaves the answers for every other name.
pub query-set_other :
    (hex8 : ℕ → Text) (c : Config) (name other : Text) (v : Value) (c' : Config) (size : ℕ)
    → reg_set_value hex8 0 c name v ≡ done c'
    → name ≢ other
    → reg_query_value 0 c' other size ≡ reg_query_value 0 c other size
unfolding reg_set_value reg_query_value
query-set_other hex8 c name other v c' size e ne = ap (λ o. query_text o size) (kept v e)
  where
    left_alone : (val : Text) → cfg_write c name val other ≡ c other
    left_alone val = elim (Bool-cases (same_text name other)) [
      | inl same ↦ absurd (ne (same_text-eq name other same))
      | inr differs ↦ rw differs refl
    ]

    result : Outcome Config → Config
    result (done x) = x
    result panic = c

    kept : (v : Value) → reg_set_value hex8 0 c name v ≡ done c' → c' other ≡ c other
    kept (reg_dword d) written_ =
        sym (ap (λ o. result o other) written_) ∙ left_alone (b'D' ∷ b'W' ∷ b':' ∷ hex8 d)
    kept (reg_sz t) written_ =
        sym (ap (λ o. result o other) written_) ∙ left_alone (b'S' ∷ b'Z' ∷ b':' ∷ t)
    kept other_type written_ = sym (ap (λ o. result o other) written_)
