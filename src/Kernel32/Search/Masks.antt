-- ===== src/Kernel32/Search/Masks.antt =====
-- Which names `win32_mask_test` (src/uwin/target_dlls/KERNEL32/kernel32.c) takes.
use uwin_old.Common.{ℕ, zero, suc, ◌+◌, ◌-◌, ◌≤◌}
use uwin_old.Common.{◌≡◌, refl, sym, ap, ◌≢◌, ◌↔◌, ◌⊎◌, inl, inr, arith}
use uwin_old.Common.{Bool, true, false, ◌&&◌, ◌||◌, none, [], ◌∷◌, ◌++◌}
use uwin_old.Common.{leb, ◌==◌, if◌then◌else◌, Bool-cases, length}
use uwin_old.Common.{take, drop, length-append}
use uwin_old.Common.{done}
use uwin_old.Common.Int.{pos, sub_ℕ}
use uwin_old.Ksvc.Text.{Text, tolower, strlen, strcmp, strrchr}
use uwin_old.Ksvc.Text.Scan.{Finds, IsLast, Avoids, strrchr-Finds, strlen-length}
use mathlib.Core.Path.{subst}
use uwin_old.Common.{take-append-drop, length-drop}
use uwin_old.Common.{drop-append}
use uwin_old.Kernel32.Search.{is_zero, nostar_mask_test, mask_test}

-- The bytes of a name fit those of a mask one by one, `?` fits each, and case does not matter.
abbrev pub Matches : Text → Text → Type 0
Matches [] [] = Unit
Matches [] (d ∷ h) = ⊥
Matches (c ∷ m) [] = ⊥
Matches (c ∷ m) (d ∷ h) = ((tolower c ≡ tolower d) ⊎ (c ≡ b'?')) × Matches m h

-- A name ends in bytes that fit.
pub record EndsIn (mask name : Text) : Type 0 where
  pub front : Text
  pub end : Text
  pub splits : name ≡ front ++ end
  pub fits : Matches mask end

Matches-length : (m h : Text) → Matches m h → length m ≡ length h
Matches-length [] [] f = refl
Matches-length [] (d ∷ h) f = absurd f
Matches-length (c ∷ m) [] f = absurd f
Matches-length (c ∷ m) (d ∷ h) f = ap suc (Matches-length m h f.1)

byte-fits : (a b c : ℕ) → ((a == b || c == b'?') ≡ true) ↔ ((a ≡ b) ⊎ (c ≡ b'?'))
byte-fits a b c = (
  λ e. elim (Bool-cases (a == b)) [
    | inl same ↦ inl (ground (arith, same))
    | inr other ↦ inr (ground (arith, other, e))
  ],
  λ h. elim h [ inl same ↦ ground (arith, same) | inr any ↦ ground (arith, any) ],
)

if-both :
    {P Q : Type 0} (b r : Bool)
    → (b ≡ true) ↔ P
    → (r ≡ true) ↔ Q
    → ((if b then r else false) ≡ true) ↔ (P × Q)
if-both true r p q = (λ e. (p.0 refl, q.0 e), λ h. q.1 h.1)
if-both false r p q = (λ e. absurd (ground (arith, e)), λ h. p.1 h.0)

pub nostar_mask_test-Matches :
    (c : ℕ) (m h : Text)
    → length h ≡ length (c ∷ m)
    → (nostar_mask_test (c ∷ m) h ≡ true) ↔ Matches (c ∷ m) h
unfolding nostar_mask_test
nostar_mask_test-Matches c m [] e = absurd (omega arith)
nostar_mask_test-Matches c [] (d ∷ []) e =
    if-both (tolower c == tolower d || c == b'?') true (byte-fits (tolower c) (tolower d) c)
      (λ x. tt, λ x. refl)
nostar_mask_test-Matches c [] (d ∷ d' ∷ h) e = absurd (omega arith)
nostar_mask_test-Matches c (c' ∷ m) (d ∷ []) e = absurd (omega arith)
nostar_mask_test-Matches c (c' ∷ m) (d ∷ d' ∷ h) e =
    if-both (tolower c == tolower d || c == b'?') (nostar_mask_test (c' ∷ m) (d' ∷ h))
      (byte-fits (tolower c) (tolower d) c) (nostar_mask_test-Matches c' m (d' ∷ h) (omega arith))

star_free : (s : Text) → strrchr s b'*' ≡ none → Avoids b'*' s
star_free s e = (subst (λ o. Finds (IsLast b'*') b'*' s o) e (strrchr-Finds s b'*')).1

not_star : (c : ℕ) (m : Text) → c ≢ 0 → is_zero (strcmp (b'*' ∷ c ∷ m) (b'*' ∷ [])) ≡ false
unfolding strcmp
not_star zero m positive = absurd (positive refl)
not_star (suc c) m positive = ground arith

differs : (a b : ℕ) → a ≢ b → is_zero (sub_ℕ a b) ≡ false
differs a b ne = elim (Bool-cases (leb b a)) [
  | inl above ↦ rw above (not_zero (a - b) (λ e. ne (ground (arith, above))))
  | inr below ↦ rw below refl
]
  where
    not_zero : (n : ℕ) → n ≢ 0 → is_zero (pos n) ≡ false
    not_zero zero h = absurd (h refl)
    not_zero (suc n) h = refl

not_star_dot_star :
    (c : ℕ) (m : Text)
    → c ≢ 0
    → Avoids b'*' (c ∷ m)
    → is_zero (strcmp (b'*' ∷ c ∷ m) (b'*' ∷ b'.' ∷ b'*' ∷ [])) ≡ false
unfolding strcmp
not_star_dot_star c [] positive free = ground (arith, differs c b'.')
not_star_dot_star c (d ∷ m) positive free = ground (arith, differs c b'.', differs d b'*', free.1.0)

-- What a mask of a star and bytes without a star tests.
star_mask_lem :
    (c : ℕ) (m name : Text)
    → c ≢ 0
    → strrchr (c ∷ m) b'*' ≡ none
    → mask_test (b'*' ∷ c ∷ m) name
      ≡ done (
          leb (length (c ∷ m)) (length name)
          && nostar_mask_test (c ∷ m) (drop (length name - length (c ∷ m)) name))
unfolding mask_test
star_mask_lem c m name positive none_left =
    let mask = b'*' ∷ c ∷ m in
    let some_bytes : (strlen mask == 0) ≡ false = ground (arith, strlen-length mask) in
    let behind : strlen mask - 1 ≡ length (c ∷ m) = omega (arith, strlen-length mask) in
    rw
      (
        some_bytes,
        not_star c m positive,
        not_star_dot_star c m positive (star_free (c ∷ m) none_left),
        none_left,
        behind,
        strlen-length name,
      )
      refl

end_length : (n : ℕ) (name : Text) → n ≤ length name → length (drop (length name - n) name) ≡ n
end_length n name le = omega (arith, length-drop (length name - n) name)

-- A mask of a star and more bytes, with no other star, takes the names that end in bytes which fit
-- those behind the star, and never stops the process.
pub mask_test-EndsIn :
    (c : ℕ) (m name : Text)
    → c ≢ 0
    → strrchr (c ∷ m) b'*' ≡ none
    → (hit : Bool) × (mask_test (b'*' ∷ c ∷ m) name ≡ done hit)
      × ((hit ≡ true) ↔ EndsIn (c ∷ m) name)
mask_test-EndsIn c m name positive none_left =
    let n = length (c ∷ m) in
    let k = length name - n in
    (
      leb n (length name) && nostar_mask_test (c ∷ m) (drop k name),
      star_mask_lem c m name positive none_left,
      (
        λ e. record {
          front = take k name;
          end = drop k name;
          splits = sym (take-append-drop k name);
          fits =
              (nostar_mask_test-Matches c m (drop k name) (end_length n name (ground (arith, e)))).0
                (ground (arith, e));
        },
        λ ends.
            let whole : length name ≡ length ends.front + length ends.end =
              rw ends.splits (length-append ends.front ends.end) in
            let same : length ends.end ≡ n = sym (Matches-length (c ∷ m) ends.end ends.fits) in
            let fit : nostar_mask_test (c ∷ m) ends.end ≡ true =
              (nostar_mask_test-Matches c m ends.end same).1 ends.fits in
            let at_front : k ≡ length ends.front = omega arith in
            let dropped : drop k name ≡ ends.end =
              rw at_front (rw ends.splits (drop-append ends.front ends.end)) in
            ground (arith, dropped, fit),
      ),
    )
