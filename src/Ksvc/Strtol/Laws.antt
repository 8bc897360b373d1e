-- ===== src/Ksvc/Strtol/Laws.antt =====
-- `strtol` on a number in a given base: blanks, a sign, digits, and what follows them.
use uwin_old.Common.{ℕ, ◌+◌, ◌-◌, ◌*◌, ◌/◌, ◌%◌, ◌^◌, ◌≤◌, ◌<◌}
use uwin_old.Common.{◌≡◌, refl, ◌∙◌, ◌≢◌, inl, inr, arith}
use uwin_old.Common.{Bool, true, false, ◌||◌, Option, none, some, List, [], ◌∷◌, ◌++◌}
use uwin_old.Common.{ltb, ◌==◌, if◌then◌else◌, Bool-cases}
use uwin_old.Common.{}
use uwin_old.Common.{}
use uwin_old.Common.Int.{ℤ, pos, sub_ℕ}
use Prim.Native.Nat.{min}
use uwin_old.Ksvc.Text.{Text, deref, isspace}
use uwin_old.Ksvc.Strtol.{
  digit, Scanned, scan, skip_spaces, read_sign, read_prefix, limit, finish, strtol_in, strtol,
}
use uwin_old.Ksvc.Strtol.Digits.{value_from, Spells, Stops, end_of, scan-fits, scan-overflows}
use native.Mathlib.Decide.{dec_lt}

pub data Signed : Type 0 where
  bare plus minus : Signed

abbrev pub sign_text : Signed → Text
sign_text bare = []
sign_text plus = b'+' ∷ []
sign_text minus = b'-' ∷ []

abbrev pub is_minus : Signed → Bool
is_minus minus = true
is_minus _ = false

-- The number with its sign, held between the bounds of a 32-bit `long`.
abbrev pub clamped : Bool → ℕ → ℤ
clamped true v = sub_ℕ 0 (min v (2 ^ 31))
clamped false v = pos (min v (2 ^ 31 - 1))

abbrev pub Blanks : Text → Type 0
Blanks [] = Unit
Blanks (c ∷ s) = (isspace c ≡ true) × Blanks s

some_le : {o : Option ℕ} {d : ℕ} → o ≡ some 33 → o ≡ some d → 16 ≤ d
some_le p q = ground arith

digit_facts :
    (b d : ℕ)
    → digit b ≡ some d
    → (isspace b ≡ false)
      × (b ≢ b'+')
      × (b ≢ b'-')
      × (b ≡ b'0' → d ≡ 0)
      × (b ≡ b'x' → 16 ≤ d)
      × (b ≡ b'X' → 16 ≤ d)
unfolding digit
digit_facts b d e =
    let at_x : digit b'x' ≡ some 33 = refl in
    let at_X : digit b'X' ≡ some 33 = refl in
    (
      ground arith,
      ground arith,
      ground arith,
      λ z. ground arith,
      λ z. some_le (at_x) (rw z at e),
      λ z. some_le (at_X) (rw z at e),
    )

finish-fits :
    (more neg : Bool) (n : ℕ) (endp : Text)
    → n ≤ limit neg
    → finish more neg (record { n = n; overflow = false; endp = endp })
      ≡ record { value = clamped neg n; endptr = if more then some endp else none }
unfolding finish
finish-fits more neg n endp h = ground arith

-- From the first digit on: the number is clamped, and the scan ends behind the digits.
finish-overflows :
    (more neg : Bool) (s : Scanned) (endp : Text) (v : ℕ)
    → s.overflow ≡ true
    → (more ≡ true → s.endp ≡ endp)
    → limit neg < v
    → finish more neg s
      ≡ record { value = clamped neg v; endptr = if more then some endp else none }
unfolding finish
finish-overflows more neg s endp v o e h = ground arith

end_of-append : (p rest : Text) → end_of (p ++ rest) p rest ≡ rest
end_of-append [] rest = refl
end_of-append (c ∷ p) rest = refl

scanned :
    (base : ℕ) (more neg : Bool) (endp p rest : Text) (ds : List ℕ)
    → 0 < base
    → Spells base p ds
    → Stops base rest
    → end_of endp p rest ≡ rest
    → finish more neg
        (scan base (limit neg / base) (limit neg % base) more 0 false endp (p ++ rest))
      ≡ record {
        value = clamped neg (value_from base 0 ds);
        endptr = if more then some rest else none;
      }
scanned base more neg endp p rest ds h sp st e =
    let total : limit neg / base * base + limit neg % base ≡ limit neg = grind arith in
    let lt : limit neg % base < base = omega arith in
    let small : limit neg / base * base + limit neg % base < 2 ^ 32 = ground arith in
    elim (dec_lt (limit neg) (value_from base 0 ds)) [
      | yes over ↦
          let s =
            scan-overflows base (limit neg / base) (limit neg % base) small lt more 0 endp p rest ds
              sp st (omega arith) (rw total over) in
          finish-overflows more neg _ rest (value_from base 0 ds) s.0 (λ m. s.1 m ∙ e) over
      | no fits ↦
          rw
            (
              scan-fits base (limit neg / base) (limit neg % base) small lt more 0 endp p rest ds sp
                  st (rw total (omega arith)),
              e,
            )
            (finish-fits more neg (value_from base 0 ds) rest (omega arith))
    ]

skip_spaces-Blanks :
    (ws p : Text) → Blanks ws → isspace (deref p) ≡ false → skip_spaces (ws ++ p) ≡ p
unfolding skip_spaces
skip_spaces-Blanks [] [] hw hp = refl
skip_spaces-Blanks [] (c ∷ p) hw hp = rw hp
skip_spaces-Blanks (w ∷ ws) p hw hp = rw hw.0 (skip_spaces-Blanks ws p hw.1 hp)

-- No `x` follows: with base 16 a digit `0` and an `x` would be taken for a prefix.
abbrev pub NotX : Text → Type 0
NotX rest = (deref rest ≢ b'x') × (deref rest ≢ b'X')

-- The sign is read off, and the first digit is kept.
read_sign_lem :
    (b d : ℕ) (sgn : Signed) (p : Text)
    → digit b ≡ some d
    → (isspace (deref (sign_text sgn ++ (b ∷ p))) ≡ false)
      × (read_sign (sign_text sgn ++ (b ∷ p)) ≡ (is_minus sgn, b ∷ p))
unfolding read_sign
read_sign_lem b d sgn p e = ground (arith, digit_facts b d e)

-- A leading zero of the digits is passed over as a prefix; the base stays.
read_prefix_lem :
    (base b d : ℕ) (start p rest : Text) (ds : List ℕ)
    → 2 ≤ base
    → Spells base (b ∷ p) (d ∷ ds)
    → (base ≡ 16 → NotX rest)
    → read_prefix base start (b ∷ (p ++ rest))
      ≡ (if b == b'0' then (base, p ++ rest, p ++ rest) else (base, start, b ∷ (p ++ rest)))
unfolding read_prefix
read_prefix_lem base b d start [] rest ds lo sp hx = ground (arith, hx)
read_prefix_lem base b d start (c ∷ p) rest [] lo sp hx = absurd sp.2
read_prefix_lem base b d start (c ∷ p) rest (d' ∷ ds) lo sp hx =
    ground (arith, digit_facts c d' sp.2.0)

-- From behind the sign on.
after_sign :
    (start : Text) (neg : Bool) (b : ℕ) (p rest : Text) (d : ℕ) (ds : List ℕ) (more : Bool)
    (base : ℕ)
    → 2 ≤ base
    → Spells base (b ∷ p) (d ∷ ds)
    → Stops base rest
    → (base ≡ 16 → NotX rest)
    → (let (base', endp, q) = read_prefix base start (b ∷ (p ++ rest)) in
        finish more neg (scan base' (limit neg / base') (limit neg % base') more 0 false endp q)
        ≡ record {
          value = clamped neg (value_from base 0 (d ∷ ds));
          endptr = if more then some rest else none;
        })
after_sign start neg b p rest d ds more base lo sp st hx =
    let zero_start : 0 * base + 0 ≡ 0 = omega arith in
    elim (Bool-cases (b == b'0')) [
      | inl is_zero ↦
          rw
            (
              read_prefix_lem base b d start p rest ds lo sp hx,
              is_zero,
              (digit_facts b d sp.0).3 (ground arith),
              zero_start,
            )
            (scanned base more neg (p ++ rest) p rest ds (omega arith) sp.2 st
              (end_of-append p rest))
      | inr other ↦
          rw (read_prefix_lem base b d start p rest ds lo sp hx, other)
            (scanned base more neg start (b ∷ p) rest (d ∷ ds) (omega arith) sp st refl)
    ]

-- `strtol` on blanks, a sign, digits of a base from 2 to 36, and a rest that starts with no digit of
-- the base: the value is that of the digits with the sign, clamped to the range of `long`, and
-- `endptr`, if given, is left at the rest. For base 16 the rest must not start with an `x`.
pub strtol-digits :
    (ws : Text) (sgn : Signed) (b : ℕ) (p rest : Text) (d : ℕ) (ds : List ℕ) (more : Bool)
    (base : ℕ)
    → 2 ≤ base
    → base ≤ 36
    → Blanks ws
    → Spells base (b ∷ p) (d ∷ ds)
    → Stops base rest
    → (base ≡ 16 → NotX rest)
    → strtol (ws ++ (sign_text sgn ++ (b ∷ (p ++ rest)))) more (pos base) ≡ record {
      value = clamped (is_minus sgn) (value_from base 0 (d ∷ ds));
      endptr = if more then some rest else none;
    }
unfolding strtol strtol_in
strtol-digits ws sgn b p rest d ds more base lo hi hw sp st hx =
    let in_range : (base == 1 || ltb 36 base) ≡ false = ground arith in
    rw
      (
        in_range,
        skip_spaces-Blanks ws (sign_text sgn ++ (b ∷ (p ++ rest))) hw
            (read_sign_lem b d sgn (p ++ rest) sp.0).0,
        (read_sign_lem b d sgn (p ++ rest) sp.0).1,
      )
      (after_sign (ws ++ (sign_text sgn ++ (b ∷ (p ++ rest)))) (is_minus sgn) b p rest d ds more
        base lo sp st hx)
