-- ===== src/Host/Loader/Relocs/Places.antt =====
-- What the relocations of src/uwin/ldr.cpp do to memory, as a list of the places whose words they shift.
use uwin_old.Common.{ℕ, ◌+◌, ◌≤◌, ◌<◌}
use uwin_old.Common.{◌≡◌, refl, ap, ◌∙◌, ◌⊎◌, inl, inr, arith}
use uwin_old.Common.{List, [], ◌∷◌}
use uwin_old.Common.{u32}
use uwin_old.Common.Bytes.{Memory, load, store_word-outside, load-same, load-store_word}
use uwin_old.Host.Loader.Relocs.Words.{shifted}

-- The words at the places, shifted one after the other.
unfoldable pub shift_all : ℕ → List ℕ → Memory → Memory
shift_all d [] m = m
shift_all d (t ∷ ts) m = shift_all d ts (shifted d t m)

-- No word at a place has a byte in the range.
abbrev pub Apart : ℕ → ℕ → List ℕ → Type 0
Apart lo hi [] = Unit {0}
Apart lo hi (t ∷ ts) = ((t + 4 ≤ lo) ⊎ (hi ≤ t)) × Apart lo hi ts

-- No two of the words share a byte.
abbrev pub Separate : List ℕ → Type 0
Separate [] = Unit {0}
Separate (t ∷ ts) = Apart t (t + 4) ts × Separate ts

-- The words at the places are the old ones with the difference added.
abbrev pub Moved : ℕ → Memory → Memory → List ℕ → Type 0
Moved d m m' [] = Unit {0}
Moved d m m' (t ∷ ts) = (load 4 t m' ≡ u32 (load 4 t m + d)) × Moved d m m' ts

pub shifted-outside :
    (d t : ℕ) (m : Memory) (lo hi b : ℕ)
    → (t + 4 ≤ lo) ⊎ (hi ≤ t)
    → lo ≤ b
    → b < hi
    → shifted d t m b ≡ m b
shifted-outside d t m lo hi b (inl le) l h =
    store_word-outside 4 t (u32 (load 4 t m + d)) m b (inr (omega arith))
shifted-outside d t m lo hi b (inr ge) l h =
    store_word-outside 4 t (u32 (load 4 t m + d)) m b (inl (omega arith))

-- A range apart from the places keeps its bytes.
pub shift_all-outside :
    (d : ℕ) (ts : List ℕ) (m : Memory) (lo hi b : ℕ)
    → Apart lo hi ts
    → lo ≤ b
    → b < hi
    → shift_all d ts m b ≡ m b
unfolding shift_all
shift_all-outside d [] m lo hi b apart l h = refl
shift_all-outside d (t ∷ ts) m lo hi b apart l h =
    shift_all-outside d ts (shifted d t m) lo hi b apart.1 l h
    ∙ shifted-outside d t m lo hi b apart.0 l h

load-shifted : (d t : ℕ) (m : Memory) → load 4 t (shifted d t m) ≡ u32 (load 4 t m + d)
load-shifted d t m = load-store_word t (u32 (load 4 t m + d)) m ∙ omega arith

-- The places of the rest see the same words before and after one shift.
Moved-rest :
    (d : ℕ) (t : ℕ) (ts : List ℕ) (m m' : Memory)
    → Apart t (t + 4) ts
    → Moved d (shifted d t m) m' ts
    → Moved d m m' ts
Moved-rest d t [] m m' apart moved = tt
Moved-rest d t (t' ∷ ts) m m' apart moved =
    let same : load 4 t' (shifted d t m) ≡ load 4 t' m = load-same 4 t' (shifted d t m) m (λ b l h.
      shifted-outside d t m t' (t' + 4) b (elim apart.0 [ inl le ↦ inr le | inr ge ↦ inl ge ]) l
        h) in
    (moved.0 ∙ ap (λ w. u32 (w + d)) same, Moved-rest d t ts m m' apart.1 moved.1)

-- Shifting words that share no byte shifts each of them.
pub shift_all-Moved :
    (d : ℕ) (ts : List ℕ) (m : Memory) → Separate ts → Moved d m (shift_all d ts m) ts
unfolding shift_all
shift_all-Moved d [] m separate = tt
shift_all-Moved d (t ∷ ts) m separate = (
  load-same 4 t (shift_all d ts (shifted d t m)) (shifted d t m)
        (λ b l h. shift_all-outside d ts (shifted d t m) t (t + 4) b separate.0 l h)
      ∙ load-shifted d t m,
  Moved-rest d t ts m (shift_all d ts (shifted d t m)) separate.0
      (shift_all-Moved d ts (shifted d t m) separate.1),
)
