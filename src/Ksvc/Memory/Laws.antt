-- ===== src/Ksvc/Memory/Laws.antt =====
-- What a block operation leaves in memory, address by address.
use uwin_old.Common.{ℕ, zero, suc, ◌+◌, ◌%◌, ◌^◌, ◌<◌, ◌≤◌, ◌≡◌, ◌⊎◌, arith, refl}
use uwin_old.Common.{leb, ◌&&◌, ltb, if◌then◌else◌, Bool-cases, inl, inr}
use uwin_old.Ksvc.Memory.{Memory, store, copy_up, copy_down, memmove, memcpy, memset}

-- `after` holds in `[d, d + len)` what `before` holds in `[s, s + len)`, and agrees with it elsewhere.
pub record IsCopied (d s len : ℕ) (before after : Memory) : Type 0 where
  pub inside : (i : ℕ) → i < len → after (d + i) ≡ before (s + i)
  pub outside : (q : ℕ) → (q < d) ⊎ (d + len ≤ q) → after q ≡ before q

-- The upward loop copies, if the destination does not start inside the source.
copy_up-outside :
    (len d s : ℕ) (m : Memory) (q : ℕ) → (q < d) ⊎ (d + len ≤ q) → copy_up len d s m q ≡ m q
unfolding copy_up
copy_up-outside zero d s m q h = refl
copy_up-outside (suc len) d s m q h =
    ground (arith, copy_up-outside len (d + 1) (s + 1) (store m d (m s)) q)

copy_up-inside :
    (len d s : ℕ) (m : Memory)
    → (d ≤ s) ⊎ (s + len ≤ d)
    → (i : ℕ) → i < len
    → copy_up len d s m (d + i) ≡ m (s + i)
unfolding copy_up
copy_up-inside zero d s m h i lt = absurd (omega arith)
copy_up-inside (suc len) d s m h zero lt =
    ground (arith, copy_up-outside len (d + 1) (s + 1) (store m d (m s)) d)
copy_up-inside (suc len) d s m h (suc i) lt =
    ground
      (arith, copy_up-inside len (d + 1) (s + 1) (store m d (m s)) (omega arith) i (omega arith))

copy_up-IsCopied :
    (len d s : ℕ) (m : Memory) → (d ≤ s) ⊎ (s + len ≤ d) → IsCopied d s len m (copy_up len d s m)
copy_up-IsCopied len d s m h = record {
  inside = copy_up-inside len d s m h;
  outside = copy_up-outside len d s m;
}

-- The downward loop copies, if the destination does not end inside the source.
copy_down-outside :
    (len d s : ℕ) (m : Memory) (q : ℕ) → (q < d) ⊎ (d + len ≤ q) → copy_down len d s m q ≡ m q
unfolding copy_down
copy_down-outside zero d s m q h = refl
copy_down-outside (suc len) d s m q h =
    ground (arith, copy_down-outside len d s (store m (d + len) (m (s + len))) q)

copy_down-inside :
    (len d s : ℕ) (m : Memory) → s ≤ d → (i : ℕ) → i < len → copy_down len d s m (d + i) ≡ m (s + i)
unfolding copy_down
copy_down-inside zero d s m h i lt = absurd (omega arith)
copy_down-inside (suc len) d s m h i lt = ground (
  arith,
  copy_down-outside len d s (store m (d + len) (m (s + len))) (d + i),
  copy_down-inside len d s (store m (d + len) (m (s + len))) h i,
)

-- `memmove` leaves the bytes of the source as they were before the call at the destination, and
-- changes nothing else, also where the two blocks overlap.
pub memmove-IsCopied :
    (dest src len : ℕ) (m : Memory) → IsCopied dest src len m (memmove dest src len m)
unfolding memmove
memmove-IsCopied dest src len m = elim (Bool-cases (ltb dest src)) [
  | inl below ↦ rw below (copy_up-IsCopied len dest src m (ground arith))
  | inr above ↦ rw above (record {
    inside = copy_down-inside len dest src m (ground arith);
    outside = copy_down-outside len dest src m;
  })
]

-- `memcpy` copies blocks that are apart, or whose destination starts at or below the source; with
-- a null pointer on either side it changes nothing.
pub memcpy_lem :
    (dest src cnt : ℕ) (m : Memory)
    → (dest ≤ src) ⊎ (src + cnt ≤ dest)
    → ((0 < dest) × (0 < src) × IsCopied dest src cnt m (memcpy dest src cnt m))
      ⊎ (((dest ≡ 0) ⊎ (src ≡ 0)) × (memcpy dest src cnt m ≡ m))
unfolding memcpy
memcpy_lem zero src cnt m h = inr (inl refl, refl)
memcpy_lem (suc d) zero cnt m h = inr (inr refl, ground arith)
memcpy_lem (suc d) (suc s) cnt m h =
    let runs : memcpy (suc d) (suc s) cnt m ≡ copy_up cnt (suc d) (suc s) m = ground arith in
    inl (omega arith, omega arith, rw runs (copy_up-IsCopied cnt (suc d) (suc s) m h))

-- `memset` writes the low byte of `c` over the block, and nothing else.
pub memset-block :
    (b c len : ℕ) (m : Memory) (q : ℕ)
    → memset b c len m q ≡ (if leb b q && ltb q (b + len) then c % 2 ^ 8 else m q)
unfolding memset
memset-block b c zero m q = ground arith
memset-block b c (suc len) m q =
    ground (arith, memset-block (b + 1) c len (store m b (c % 2 ^ 8)) q)
