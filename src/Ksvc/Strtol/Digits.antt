-- ===== src/Ksvc/Strtol/Digits.antt =====
-- The digit loop of `strtol` computes the number that a run of digits stands for, up to the limit.
use uwin_old.Common.{ℕ, ◌+◌, ◌*◌, ◌^◌, ◌≤◌, ◌<◌}
use uwin_old.Common.{◌≡◌, refl, inl, inr, arith}
use uwin_old.Common.{Bool, true, false, ◌&&◌, ◌||◌, some, List, [], ◌∷◌, ◌++◌}
use uwin_old.Common.{ltb, ◌==◌, Option-cases}
use uwin_old.Common.{u32}
use native.Mathlib.Nat.{mod-eq_of_lt}
use native.Mathlib.Decide.{dec_lt}
use uwin_old.Ksvc.Text.{Text}
use uwin_old.Ksvc.Strtol.{digit, scan}

-- The value of a run of digits behind the number `n`.
abbrev pub value_from : ℕ → ℕ → List ℕ → ℕ
value_from base n [] = n
value_from base n (d ∷ ds) = value_from base (n * base + d) ds

-- Digits of a base, and a text that spells them.
abbrev pub Spells : ℕ → Text → List ℕ → Type 0
Spells base [] [] = Unit
Spells base [] (d ∷ ds) = ⊥
Spells base (b ∷ p) [] = ⊥
Spells base (b ∷ p) (d ∷ ds) = (digit b ≡ some d) × (d < base) × Spells base p ds

-- No digit of the base stands first in the text.
abbrev pub Stops : ℕ → Text → Type 0
Stops base [] = Unit
Stops base (b ∷ p) = (d : ℕ) → digit b ≡ some d → base ≤ d

value_from-le : (base n : ℕ) (ds : List ℕ) → 0 < base → n ≤ value_from base n ds
value_from-le base n [] h = omega arith
value_from-le base n (d ∷ ds) h = grind (arith, value_from-le base (n * base + d) ds h)

mul-step : (a b c : ℕ) → a < b → a * c + c ≤ b * c
mul-step a b c h = grind arith

-- The test before a multiplication tells whether the new number is within the limit.
test-fits :
    (base cutoff cutlim n d : ℕ)
    → cutlim < base
    → d < base
    → n * base + d ≤ cutoff * base + cutlim
    → (ltb cutoff n || (n == cutoff && ltb cutlim d)) ≡ false
test-fits base cutoff cutlim n d lt small h =
    ground (arith, mul-step cutoff n base, mul-step n cutoff base)

test-over :
    (base cutoff cutlim n d : ℕ)
    → cutlim < base
    → d < base
    → cutoff * base + cutlim < n * base + d
    → (ltb cutoff n || (n == cutoff && ltb cutlim d)) ≡ true
test-over base cutoff cutlim n d lt small h =
    ground (arith, mul-step cutoff n base, mul-step n cutoff base)

-- Where the scan of `p ++ rest` ends, if it takes `p`.
abbrev pub end_of : Text → Text → Text → Text
end_of endp [] rest = endp
end_of endp (b ∷ p) rest = rest

module _ (base cutoff cutlim : ℕ) (small : cutoff * base + cutlim < 2 ^ 32)
    (lt : cutlim < base) where
  abbrev bound : ℕ
  bound = cutoff * base + cutlim

  scan-stop :
      (more : Bool) (n : ℕ) (over : Bool) (endp rest : Text)
      → Stops base rest
      → scan base cutoff cutlim more n over endp rest
        ≡ record { n = n; overflow = over; endp = endp }
  unfolding scan
  scan-stop more n over endp [] h = refl
  scan-stop more n over endp (b ∷ rest) h = elim (Option-cases (digit b)) [
    | inl e ↦ rw (e, scan)
    | inr (d, e) ↦ ground (arith, h d e)
  ]

  pub scan-fits :
      (more : Bool) (n : ℕ) (endp p rest : Text) (ds : List ℕ)
      → Spells base p ds
      → Stops base rest
      → value_from base n ds ≤ bound
      → scan base cutoff cutlim more n false endp (p ++ rest)
        ≡ record { n = value_from base n ds; overflow = false; endp = end_of endp p rest }
  unfolding scan
  scan-fits more n endp [] rest [] sp st h = scan-stop more n false endp rest st
  scan-fits more n endp [] rest (d ∷ ds) sp st h = absurd sp
  scan-fits more n endp (b ∷ p) rest [] sp st h = absurd sp
  scan-fits more n endp (b ∷ p) rest (d ∷ ds) sp st h =
      let room : n * base + d ≤ bound =
        omega (arith, value_from-le base (n * base + d) ds (omega arith)) in
      let fits : (ltb cutoff n || (n == cutoff && ltb cutlim d)) ≡ false =
        test-fits base cutoff cutlim n d lt sp.1 room in
      let no_wrap : u32 (n * base + d) ≡ n * base + d = mod-eq_of_lt (omega arith) in
      ground (arith, fits, no_wrap, scan-fits more (n * base + d) (p ++ rest) p rest ds sp.2 st h)

  pub scan_after_overflow :
      (n : ℕ) (endp p rest : Text) (ds : List ℕ)
      → Spells base p ds
      → Stops base rest
      → scan base cutoff cutlim true n true endp (p ++ rest)
        ≡ record { n = n; overflow = true; endp = end_of endp p rest }
  unfolding scan
  scan_after_overflow n endp [] rest [] sp st = scan-stop true n true endp rest st
  scan_after_overflow n endp [] rest (d ∷ ds) sp st = absurd sp
  scan_after_overflow n endp (b ∷ p) rest [] sp st = absurd sp
  scan_after_overflow n endp (b ∷ p) rest (d ∷ ds) sp st =
      ground (arith, scan_after_overflow n (p ++ rest) p rest ds sp.2 st)

  -- Over the limit the scan reports it, and with `endptr` given still ends behind the digits.
  pub scan-overflows :
      (more : Bool) (n : ℕ) (endp p rest : Text) (ds : List ℕ)
      → Spells base p ds
      → Stops base rest
      → n ≤ bound
      → bound < value_from base n ds
      → (let s = scan base cutoff cutlim more n false endp (p ++ rest) in
          (s.overflow ≡ true) × (more ≡ true → s.endp ≡ end_of endp p rest))
  unfolding scan
  scan-overflows more n endp [] rest [] sp st room h = absurd (omega arith)
  scan-overflows more n endp [] rest (d ∷ ds) sp st room h = absurd sp
  scan-overflows more n endp (b ∷ p) rest [] sp st room h = absurd sp
  scan-overflows more n endp (b ∷ p) rest (d ∷ ds) sp st room h =
      let no_wrap =
        λ (le : n * base + d ≤ bound). mod-eq_of_lt {n = n * base + d} {m = 2 ^ 32} (omega arith) in
      elim (dec_lt bound (n * base + d)) [
        | yes over ↦ ground (
          arith,
          test-over base cutoff cutlim n d lt sp.1 over,
          scan_after_overflow n (p ++ rest) p rest ds sp.2 st,
        )
        | no fits ↦ ground (
          arith,
          test-fits base cutoff cutlim n d lt sp.1 (omega arith),
          no_wrap (omega arith),
          scan-overflows more (n * base + d) (p ++ rest) p rest ds sp.2 st (omega arith) h,
        )
      ]
