-- ===== src/Host/Loader/Startup/Listed.antt =====
-- The list of routines that src/uwin/ldr.cpp writes into memory at the start of the process.
use uwin_old.Common.{ℕ, ◌+◌, ◌-◌, ◌*◌, ◌/◌, ◌^◌, ◌≤◌, ◌<◌}
use uwin_old.Common.{◌≡◌, refl, sym, ◌∙◌, inl, arith}
use uwin_old.Common.{List, [], ◌∷◌}
use uwin_old.Common.{length}
use uwin_old.Common.{u32}
use native.Mathlib.Nat.{div-mul-le_self, lt-div-mul-add}
use uwin_old.Common.Bytes.{Memory, load, load-same, store_word, store_word-outside, load-store_word}
use uwin_old.Host.Loader.Modules.Images.{align_up}
use uwin_old.Host.Loader.Startup.{write_routines, erase_last}

-- Pairs of words stand in memory from an address on, and a pair of zeros ends them.
abbrev pub IsListed : Memory → ℕ → List (ℕ × ℕ) → Type 0
IsListed m a [] = (load 4 a m ≡ 0) × (load 4 (a + 4) m ≡ 0)
IsListed m a (r ∷ rs) =
    (load 4 a m ≡ u32 r.0) × (load 4 (a + 4) m ≡ u32 r.1) × IsListed m (a + 8) rs

abbrev pub list_size : List (ℕ × ℕ) → ℕ
list_size rs = (length rs + 1) * 8

-- A list is there in every memory that has the same bytes from its first to its last.
pub IsListed-same :
    (m m' : Memory) (a : ℕ) (rs : List (ℕ × ℕ))
    → ((b : ℕ) → a ≤ b → b < a + list_size rs → m b ≡ m' b)
    → IsListed m a rs
    → IsListed m' a rs
IsListed-same m m' a [] h is = (
  sym (load-same 4 a m m' (λ b lo hi. h b lo (omega arith))) ∙ is.0,
  sym (load-same 4 (a + 4) m m' (λ b lo hi. h b (omega arith) (omega arith))) ∙ is.1,
)
IsListed-same m m' a (r ∷ rs) h is = (
  sym (load-same 4 a m m' (λ b lo hi. h b lo (omega arith))) ∙ is.0,
  sym (load-same 4 (a + 4) m m' (λ b lo hi. h b (omega arith) (omega arith))) ∙ is.1,
  IsListed-same m m' (a + 8) rs (λ b lo hi. h b (omega arith) (omega arith)) is.2,
)

-- Two words that were stored next to each other.
two_words :
    (a v w : ℕ) (m m' : Memory)
    → ((b : ℕ) → a ≤ b → b < a + 8 → m' b ≡ store_word 4 (a + 4) w (store_word 4 a v m) b)
    → (load 4 a m' ≡ u32 v) × (load 4 (a + 4) m' ≡ u32 w)
two_words a v w m m' same =
    let second = store_word 4 (a + 4) w (store_word 4 a v m) in
    (
      load-same 4 a m' second (λ b lo hi. same b lo (omega arith))
          ∙ load-same 4 a second (store_word 4 a v m)
              (λ b lo hi. store_word-outside 4 (a + 4) w (store_word 4 a v m) b (inl (omega arith)))
          ∙ load-store_word a v m,
      load-same 4 (a + 4) m' second (λ b lo hi. same b (omega arith) (omega arith))
          ∙ load-store_word (a + 4) w (store_word 4 a v m),
    )

-- Bytes below the list are left alone.
write_routines-below :
    (a : ℕ) (rs : List (ℕ × ℕ)) (m : Memory) (b : ℕ) → b < a → write_routines a rs m b ≡ m b
unfolding write_routines
write_routines-below a [] m b lt =
    store_word-outside 4 (a + 4) 0 (store_word 4 a 0 m) b (inl (omega arith))
    ∙ store_word-outside 4 a 0 m b (inl lt)
write_routines-below a (r ∷ rs) m b lt =
    write_routines-below (a + 8) rs (store_word 4 (a + 4) r.1 (store_word 4 a r.0 m)) b
      (omega arith)
    ∙ store_word-outside 4 (a + 4) r.1 (store_word 4 a r.0 m) b (inl (omega arith))
    ∙ store_word-outside 4 a r.0 m b (inl lt)

-- The loop over the routines writes the list of them.
pub write_routines-IsListed :
    (a : ℕ) (rs : List (ℕ × ℕ)) (m : Memory) → IsListed (write_routines a rs m) a rs
unfolding write_routines
write_routines-IsListed a [] m = two_words a 0 0 m (write_routines a [] m) (λ b lo hi. refl)
write_routines-IsListed a (r ∷ rs) m =
    let words = two_words a r.0 r.1 m (write_routines a (r ∷ rs) m) (λ b lo hi.
      write_routines-below (a + 8) rs (store_word 4 (a + 4) r.1 (store_word 4 a r.0 m)) b hi) in
    (
      words.0,
      words.1,
      write_routines-IsListed (a + 8) rs (store_word 4 (a + 4) r.1 (store_word 4 a r.0 m)),
    )

-- A size is aligned upwards, and does not wrap when there is room for one page more.
pub align_up-ge :
    (v page : ℕ) → 0 < page → v + page < 2 ^ 31 → (v ≤ align_up v page) × (align_up v page < 2 ^ 31)
align_up-ge v page some_page small =
    let above : v + page - 1 < (v + page - 1) / page * page + page = lt-div-mul-add some_page in
    let below = div-mul-le_self (v + page - 1) page in (omega arith, omega arith)

pub length-erase_last : (rs : List (ℕ × ℕ)) → length (erase_last rs) ≤ length rs
length-erase_last [] = omega arith
length-erase_last (r ∷ []) = omega arith
length-erase_last (r ∷ s ∷ rs) = omega (arith, length-erase_last (s ∷ rs))
