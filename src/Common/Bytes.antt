-- ===== src/Common/Bytes.antt =====
-- Guest memory as a function from addresses to bytes, with words in little-endian order.
use uwin_old.Common.Tests.{ltb, leb, ◌==◌, if◌then◌else◌}
use Prim.Native.Nat.{ℕ, zero, suc, ◌+◌, ◌-◌, ◌*◌, ◌/◌, ◌%◌, ◌^◌, ◌≤◌, ◌<◌}
use mathlib.Core.Path.{◌≡◌, refl}
use mathlib.Core.Logic.{◌⊎◌, inl, inr}
use mathlib.Core.Bool.{◌&&◌}
use mathlib.Core.Path.{◌∙◌}
use native.Mathlib.Omega.{arith}

abbrev pub Memory : Type 0
Memory = ℕ → ℕ

-- The bytes of a range come from somewhere else.
abbrev pub copied : ℕ → ℕ → ℕ → Memory → Memory
copied d s n m a = if leb d a && ltb a (d + n) then m (s + (a - d)) else m a

-- The word of some bytes at an address.
unfoldable pub load : ℕ → ℕ → Memory → ℕ
load zero a m = 0
load (suc n) a m = m a % 256 + 256 * load n (a + 1) m

-- The low bytes of a number, stored at an address.
unfoldable pub store_word : ℕ → ℕ → ℕ → Memory → Memory
store_word zero a v m = m
store_word (suc n) a v m =
    let rest = store_word n (a + 1) (v / 256) m in λ b. if b == a then v % 256 else rest b

-- A store touches its own bytes only.
pub store_word-outside :
    (n a v : ℕ) (m : Memory) (b : ℕ) → (b < a) ⊎ (a + n ≤ b) → store_word n a v m b ≡ m b
unfolding store_word
store_word-outside zero a v m b out = refl
store_word-outside (suc n) a v m b (inl lt) =
    ground (arith, lt, store_word-outside n (a + 1) (v / 256) m b (inl (omega arith)))
store_word-outside (suc n) a v m b (inr ge) =
    ground (arith, ge, store_word-outside n (a + 1) (v / 256) m b (inr (omega arith)))

-- The bytes of zero are zero.
pub store_word-zero :
    (n a : ℕ) (m : Memory) (b : ℕ)
    → store_word n a 0 m b ≡ (if leb a b && ltb b (a + n) then 0 else m b)
unfolding store_word
store_word-zero zero a m b = ground arith
store_word-zero (suc n) a m b = ground (arith, store_word-zero n (a + 1) m b)

pub store_word-byte :
    (a v : ℕ) (m : Memory) (b : ℕ)
    → store_word 1 a v m b ≡ (if leb a b && ltb b (a + 1) then v % 256 else m b)
unfolding store_word
store_word-byte a v m b = ground arith

-- A load sees its own bytes only.
pub load-same :
    (n a : ℕ) (m m' : Memory)
    → ((b : ℕ) → a ≤ b → b < a + n → m b ≡ m' b)
    → load n a m ≡ load n a m'
unfolding load
load-same zero a m m' h = refl
load-same (suc n) a m m' h =
    let rest = load-same n (a + 1) m m' (λ b lo hi. h b (omega arith) (omega arith)) in
    omega (arith, rest, h a (omega arith) (omega arith))

-- The first byte and the others of a load of a stored word.
load-store_word_more :
    (n a v : ℕ) (m : Memory)
    → load (suc n) a (store_word (suc n) a v m)
      ≡ v % 256 % 256 + 256 * load n (a + 1) (store_word n (a + 1) (v / 256) m)
unfolding load store_word
load-store_word_more n a v m =
    let rest =
      load-same n (a + 1) (λ b. if b == a then v % 256 else store_word n (a + 1) (v / 256) m b)
        (store_word n (a + 1) (v / 256) m) (λ b lo hi. ground (arith, lo)) in
    ground (arith, rest)

-- A 32-bit word that was stored is loaded.
pub load-store_word : (a v : ℕ) (m : Memory) → load 4 a (store_word 4 a v m) ≡ v % 2 ^ 32
unfolding load
load-store_word a v m =
    load-store_word_more 3 a v m
    ∙ omega (
      arith,
      load-store_word_more 2 (a + 1) (v / 256) m,
      load-store_word_more 1 (a + 1 + 1) (v / 256 / 256) m,
      load-store_word_more 0 (a + 1 + 1 + 1) (v / 256 / 256 / 256) m,
    )
