-- ===== src/Host/Loader/Modules/Bytes.antt =====
-- The bytes that src/uwin/ldr.cpp copies into an image or a mapping.
use uwin_old.Common.{ℕ, zero, suc, ◌+◌, ◌%◌, ◌≤◌, ◌<◌}
use uwin_old.Common.{◌≡◌, refl, ap, ◌∙◌, inl, arith}
use uwin_old.Common.{List, [], ◌∷◌}
use uwin_old.Common.{length}
use uwin_old.Common.{get_or}
use uwin_old.Common.Bytes.{Memory, load, store_word, store_word-byte, store_word-outside}
use uwin_old.Host.Loader.Modules.Images.{write_bytes}

-- Bytes below the place are left alone.
pub write_bytes-below :
    (a : ℕ) (bs : List ℕ) (m : Memory) (x : ℕ) → x < a → write_bytes a bs m x ≡ m x
unfolding write_bytes
write_bytes-below a [] m x lt = refl
write_bytes-below a (b ∷ bs) m x lt =
    write_bytes-below (a + 1) bs (store_word 1 a b m) x (omega arith)
    ∙ store_word-outside 1 a b m x (inl lt)

-- The byte of every number that was copied.
write_bytes-byte :
    (a : ℕ) (bs : List ℕ) (m : Memory) (i : ℕ)
    → i < length bs
    → write_bytes a bs m (a + i) ≡ get_or bs i 0 % 256
unfolding write_bytes
write_bytes-byte a [] m i lt = absurd (omega arith)
write_bytes-byte a (b ∷ bs) m zero lt =
    let below = write_bytes-below (a + 1) bs (store_word 1 a b m) a (omega arith) in
    let stored = store_word-byte a b m a in ground (arith, below, stored)
write_bytes-byte a (b ∷ bs) m (suc i) lt =
    let at : a + suc i ≡ a + 1 + i = omega arith in
    ap (λ x. write_bytes (a + 1) bs (store_word 1 a b m) x) at
    ∙ write_bytes-byte (a + 1) bs (store_word 1 a b m) i (omega arith)

-- A word of the copy is that word of the bytes.
pub load-write_bytes :
    (n a : ℕ) (bs : List ℕ) (m : Memory) (i : ℕ)
    → i + n ≤ length bs
    → load n (a + i) (write_bytes a bs m) ≡ load n i (λ j. get_or bs j 0)
unfolding load
load-write_bytes zero a bs m i le = refl
load-write_bytes (suc n) a bs m i le =
    let rest = load-write_bytes n a bs m (i + 1) (omega arith) in
    let at : a + i + 1 ≡ a + (i + 1) = omega arith in
    rw (at, rest, write_bytes-byte a bs m i (omega arith)) (omega arith)
