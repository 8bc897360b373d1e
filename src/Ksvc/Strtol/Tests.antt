-- ===== src/Ksvc/Strtol/Tests.antt =====
-- Numbers read from concrete texts.
use uwin_old.Common.{◌-◌, ◌^◌}
use uwin_old.Common.{◌≡◌, refl, arith}
use uwin_old.Common.{true, false, some, [], ◌∷◌, ◌++◌}
use uwin_old.Common.{replicate}
use uwin_old.Common.Int.{pos, negsuc}
use uwin_old.Ksvc.Text.{Text}
use uwin_old.Ksvc.Strtol.{
  strtol, strtol_in, scan, skip_spaces, read_sign, read_prefix, finish, digit,
}
use uwin_old.Ksvc.Strtol.Laws.{minus, sign_text, strtol-digits}
use uwin_old.Ksvc.Strtol.Digits.{Stops}

-- "  -7F;" in base 16
abbrev spaced : Text
spaced = b' ' ∷ b' ' ∷ []

digit_7 : digit b'7' ≡ some 7
unfolding digit
digit_7 = refl

digit_f : digit b'F' ≡ some 15
unfolding digit
digit_f = refl

semicolon-Stops : Stops 16 (b';' ∷ [])
unfolding digit
semicolon-Stops d e = cc

strtol-digits_example :
    strtol (spaced ++ (sign_text minus ++ (b'7' ∷ ((b'F' ∷ []) ++ (b';' ∷ []))))) true (pos 16)
    ≡ record { value = negsuc 126; endptr = some (b';' ∷ []) }
strtol-digits_example =
    strtol-digits spaced minus b'7' (b'F' ∷ []) (b';' ∷ []) 7 (15 ∷ []) true 16 (omega arith)
      (omega arith) (refl, (refl, tt)) (digit_7, omega arith, (digit_f, omega arith, tt))
      semicolon-Stops (λ e. (omega arith, omega arith))

-- "80000000" in base 16 is over the limit.
saturates : (strtol (b'8' ∷ replicate 7 b'0') false (pos 16)).value ≡ pos (2 ^ 31 - 1)
unfolding strtol strtol_in scan skip_spaces read_sign read_prefix finish digit
saturates = refl
