-- ===== src/Advapi32/Registry/Tests.antt =====
-- A registry with a number and a text, and digits of words in base 16.
use uwin_old.Common.{ℕ, zero, suc, ◌+◌, ◌-◌, ◌/◌, ◌%◌, ◌^◌, ◌<◌, bit_and}
use uwin_old.Common.{◌≡◌, refl, sym, arith}
use uwin_old.Common.{map, none, some, List, [], ◌∷◌, map}
use uwin_old.Common.{ltb, if◌then◌else◌}
use uwin_old.Common.{done}
use uwin_old.Ksvc.Text.{Text}
use uwin_old.Ksvc.Strtol.{digit}
use uwin_old.Ksvc.Strtol.Digits.{Spells}
use uwin_old.Advapi32.Registry.{
  Config, cfg_write, reg_dword, reg_sz, reg_set_value, reg_query_value, success, dword_bytes,
}
use native.Mathlib.Decide.{dec_lt}
use uwin_old.Advapi32.Registry.RoundTrip.{IsHex8, query-set_dword}

abbrev nibble : ℕ → ℕ
nibble v = if ltb v 10 then v + 48 else v + 87

abbrev digits_of : ℕ → List ℕ
digits_of d =
    d / 2 ^ 24 % 16
    ∷ d / 2 ^ 20 % 16
    ∷ d / 2 ^ 16 % 16
    ∷ d / 2 ^ 12 % 16
    ∷ d / 2 ^ 8 % 16
    ∷ d / 2 ^ 4 % 16
    ∷ d % 16
    ∷ []

abbrev hex8 : ℕ → Text
hex8 d = map nibble (d / 2 ^ 28 % 16 ∷ digits_of d)

digit-letter : (v : ℕ) → v < 6 → bit_and (v + 32) 0xffffffdf + 10 ≡ v + 10
digit-letter zero h = refl
digit-letter (suc zero) h = refl
digit-letter (suc (suc zero)) h = refl
digit-letter (suc (suc (suc zero))) h = refl
digit-letter (suc (suc (suc (suc zero)))) h = refl
digit-letter (suc (suc (suc (suc (suc zero))))) h = refl
digit-letter (suc (suc (suc (suc (suc (suc v)))))) h = absurd (omega arith)

digit-nibble : (v : ℕ) → v < 16 → digit (nibble v) ≡ some v
unfolding digit
digit-nibble v h = elim (dec_lt v 10) [
  | yes lt ↦ ground arith
  | no ge ↦
      let shifted : v - 10 + 32 ≡ v + 87 - 65 = omega arith in
      let letter : bit_and (v + 87 - 65) 0xffffffdf + 10 ≡ v =
        rw (sym shifted) (omega (arith, digit-letter (v - 10) (omega arith))) in
      ground (arith, letter)
]

abbrev Small : List ℕ → Type 0
Small [] = Unit
Small (d ∷ ds) = (d < 16) × Small ds

Spells-nibbles : (ds : List ℕ) → Small ds → Spells 16 (map nibble ds) ds
Spells-nibbles [] small = tt
Spells-nibbles (d ∷ ds) small = (digit-nibble d small.0, small.0, Spells-nibbles ds small.1)

digits_of-Small : (d : ℕ) → Small (digits_of d)
digits_of-Small d = (
  omega arith,
  (omega arith, (omega arith, (omega arith, (omega arith, (omega arith, (omega arith, tt)))))),
)

hex8-IsHex8 : IsHex8 hex8
hex8-IsHex8 d h = record {
  first = nibble (d / 2 ^ 28 % 16);
  rest = map nibble (digits_of d);
  digit_ = d / 2 ^ 28 % 16;
  digits = digits_of d;
  is_text = refl;
  spelled = Spells-nibbles (d / 2 ^ 28 % 16 ∷ digits_of d) (omega arith, digits_of-Small d);
  value = omega arith;
}

abbrev name : Text
name = b'A' ∷ []

abbrev other_name : Text
other_name = b'B' ∷ []

abbrev empty : Config
empty k = none

abbrev large : ℕ
large = 0xdeadbeef

query-set_dword_example :
    (c' : Config) × (reg_set_value hex8 0 empty name (reg_dword large) ≡ done c')
    × (reg_query_value 0 c' name 4 ≡ done (success 4 (dword_bytes (2 ^ 31 - 1))))
query-set_dword_example = query-set_dword hex8 empty name large 4 hex8-IsHex8 (omega arith)

stored :
    reg_set_value hex8 0 empty name (reg_sz (b'x' ∷ []))
    ≡ done (cfg_write empty name (b'S' ∷ b'Z' ∷ b':' ∷ b'x' ∷ []))
unfolding reg_set_value
stored = refl
