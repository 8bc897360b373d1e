-- ===== src/Ksvc/Strtol.antt =====
-- `strtol` of src/uwin/target_dlls/KSVC/libc.c, with `long` and `int` of 32 bits and `char` signed.
pub mod Digits
pub mod Laws
mod Tests
use uwin_old.Common.{ℕ, zero, suc, ◌+◌, ◌-◌, ◌*◌, ◌/◌, ◌%◌, ◌^◌, ◌≤◌, ◌<◌, bit_and, bit_or}
use uwin_old.Common.{◌≡◌, refl, sym, ap, ap₂, ◌∙◌, fun_ext, ◌≢◌, ◌↔◌, ◌⊎◌, inl, inr, arith}
use uwin_old.Common.{
  Bool, true, false, not, ◌&&◌, ◌||◌, Option, none, some, List, [], ◌∷◌, ◌++◌, map,
}
use uwin_old.Common.{
  ltb, leb, ◌==◌, if◌then◌else◌, Bool-cases, Option-cases, length, get_elem?, set,
}
use uwin_old.Common.{
  get_or, take, drop, replicate, length-append, length-set, get_elem?-set_self, get_elem?-set_ne,
}
use uwin_old.Common.{
  Outcome, done, panic, ◌>>=◌, ◌>>◌, require, u8, u16, u32, u64, sub32, sub64, signed32,
}
use uwin_old.Common.Int.{ℤ, pos, negsuc, pos_part, neg_part, sub_ℕ, ◌+ℤ◌, ◌-ℤ◌, ◌*ℤ◌, ◌≤ℤ◌, ltb_ℤ}
use uwin_old.Ksvc.Text.{Text, deref, next, isspace}

-- The digit that the loop reads off a byte; `none` is `c < 0` or its `break`. As a signed `char` a
-- byte from 128 on is negative, passes the test `*p <= '9'` and gives a negative `c`. The mask is
-- `~('a' ^ 'A')`.
unfoldable pub digit : ℕ → Option ℕ
digit b =
    if leb b'A' b && ltb b 128
    then some (bit_and (b - b'A') 0xffffffdf + 10)
    else if leb b'0' b && leb b b'9'
    then some (b - b'0')
    else none

-- What the loop leaves: the number, whether it went over the limit, and `endp`.
pub record Scanned : Type 0 where
  pub n : ℕ
  pub overflow : Bool
  pub endp : Text

-- The `while (1)`. `more` says that `endptr` is not NULL, so that an overflow does not stop the
-- scan. The argument `p` comes last and shrinks.
pub scan : (base cutoff cutlim : ℕ) → Bool → ℕ → Bool → Text → Text → Scanned
scan base cutoff cutlim more n overflow endp [] = record { n = n; overflow = overflow; endp = endp }
scan base cutoff cutlim more n overflow endp (b ∷ p) =
    let next_after_overflow = scan base cutoff cutlim more n true p p in
    let step = λ (c : ℕ). scan base cutoff cutlim more (u32 (n * base + c)) false p p in
    elim (digit b) [
      | none ↦ record { n = n; overflow = overflow; endp = endp }
      | some c ↦
          if leb base c
          then record { n = n; overflow = overflow; endp = endp }
          else if overflow
          then if more then next_after_overflow else record { n = n; overflow = true; endp = p }
          else if ltb cutoff n || (n == cutoff && ltb cutlim c)
          then next_after_overflow
          else step c
    ]

pub skip_spaces : Text → Text
skip_spaces [] = []
skip_spaces (c ∷ p) = if isspace c then skip_spaces p else c ∷ p

-- The sign, and the text behind it.
pub read_sign : Text → Bool × Text
read_sign p =
    if deref p == b'+'
    then (false, next p)
    else if deref p == b'-'
    then (true, next p)
    else (false, p)

-- The base, `endp` and `p` behind a prefix; `start` is `nptr`.
pub read_prefix : ℕ → Text → Text → ℕ × Text × Text
read_prefix base start p =
    let is_x = deref (next p) == b'X' || deref (next p) == b'x' in
    if deref p == b'0'
    then if base == 16
      then (16, next p, if is_x then next (next p) else next p)
      else if base == 0
      then if is_x then (16, next p, next (next p)) else (8, next p, next p)
      else (base, next p, next p)
    else (if base == 0 then 10 else base, start, p)

-- The magnitude of the bound: 2 ^ 31 below zero, 2 ^ 31 - 1 above.
abbrev pub limit : Bool → ℕ
limit is_neg = if is_neg then 2 ^ 31 else 2 ^ 31 - 1

pub record Parsed : Type 0 where
  pub value : ℤ
  pub endptr : Option Text  -- what `*endptr` is set to; `none` if it is not written

pub finish : Bool → Bool → Scanned → Parsed
finish more is_neg s = record {
  value =
      if s.overflow
      then if is_neg then negsuc (2 ^ 31 - 1) else pos (2 ^ 31 - 1)
      else signed32 (if is_neg then u32 (2 ^ 32 - s.n) else s.n);
  endptr = if more then some s.endp else none;
}

pub strtol_in : Text → Bool → ℕ → Parsed
strtol_in nptr more base =
    let (is_neg, unsigned) = read_sign (skip_spaces nptr) in
    let (base', endp, p) = read_prefix base nptr unsigned in
    finish more is_neg
      (scan base' (limit is_neg / base') (limit is_neg % base') more 0 false endp p)

-- A base below 0, of 1 or over 36 returns 0 and does not write `*endptr`.
pub strtol : Text → Bool → ℤ → Parsed
strtol nptr more (negsuc b) = record { value = pos 0; endptr = none }
strtol nptr more (pos b) =
    if b == 1 || ltb 36 b then record { value = pos 0; endptr = none } else strtol_in nptr more b
