-- ===== src/Host/MemoryMap/Regions.antt =====
-- What src/uwin/host/posix/memory_map.cpp promises of the regions that it gives out.
use uwin_old.Common.{ℕ, ◌+◌, ◌^◌, ◌≤◌, ◌<◌}
use uwin_old.Common.{◌≡◌, sym, ap, arith}
use uwin_old.Common.{◌&&◌, List, [], ◌∷◌}
use uwin_old.Common.{ltb, leb}
use uwin_old.Common.{done, u32}
use uwin_old.Common.{require-eq-done}
use uwin_old.Common.{◌∙◌}
use uwin_old.Host.MemoryMap.{
  address_space, Prot, Space, initial, protect, is_aligned, map_fixed, map_dynamic, unmap,
  set_memprotect,
}

-- A region: its address and its size.
abbrev pub Region : Type 0
Region = ℕ × ℕ

-- The spaces that the calls lead to, with the regions that they gave out, the newest first.
pub data Reach (page : ℕ) : Space → List Region → Type 0 where
  start : Reach page initial []
  fixed :
      {s s' : Space} {rs : List Region} (address size : ℕ) (p : Prot)
      → Reach page s rs
      → size < 2 ^ 31
      → map_fixed page s address size p ≡ done s'
      → Reach page s' ((address, size) ∷ rs)
  dynamic :
      {s s' : Space} {rs : List Region} (address size : ℕ) (p : Prot)
      → Reach page s rs
      → size < 2 ^ 31
      → map_dynamic page s size p ≡ done (address, s')
      → Reach page s' ((address, size) ∷ rs)
  unmapped :
      {s s' : Space} {rs : List Region} (address size : ℕ)
      → Reach page s rs
      → unmap page s address size ≡ done s'
      → Reach page s' rs
  protected :
      {s s' : Space} {rs : List Region} (address size : ℕ) (p : Prot)
      → Reach page s rs
      → set_memprotect page s address size p ≡ done s'
      → Reach page s' rs

-- All regions end at or below a bound.
abbrev pub Below : ℕ → List Region → Type 0
Below bound [] = Unit
Below bound ((a, n) ∷ rs) = (a + n ≤ bound) × Below bound rs

Below-mono : (b b' : ℕ) (rs : List Region) → b ≤ b' → Below b rs → Below b' rs
Below-mono b b' [] le h = tt
Below-mono b b' ((a, n) ∷ rs) le h = (omega arith, Below-mono b b' rs le h.1)

-- What a successful call did to the bump pointer.
map_fixed-base :
    (page : ℕ) (s : Space) (address size : ℕ) (p : Prot) (s' : Space)
    → size < 2 ^ 31
    → s.map_base ≤ address_space
    → map_fixed page s address size p ≡ done s'
    → (s.map_base ≤ s'.map_base) × (address + size ≤ s'.map_base) × (s'.map_base ≤ address_space)
unfolding map_fixed
map_fixed-base page s address size p s' small le e =
    let (ok, is) =
      require-eq-done
        (is_aligned page address
          && is_aligned page size
          && ltb address address_space
          && ltb (u32 (address + size)) address_space)
        _ s' e in
    let base = ap (λ (t : Space). t.map_base) is in ground (arith, ok, base)

pub map_dynamic-base :
    (page : ℕ) (s : Space) (size : ℕ) (p : Prot) (address : ℕ) (s' : Space)
    → size < 2 ^ 31
    → s.map_base ≤ address_space
    → map_dynamic page s size p ≡ done (address, s')
    → (address ≡ s.map_base)
      × (s'.map_base ≡ s.map_base + size)
      × (s'.map_base ≤ address_space)
      × (s'.prot ≡ protect s.prot s.map_base size p)
unfolding map_dynamic
map_dynamic-base page s size p address s' small le e =
    let (ok, is) =
      require-eq-done (is_aligned page size && leb (u32 (s.map_base + size)) address_space) _
        (address, s') e in
    (
      sym (ap (λ (t : ℕ × Space). t.0) is),
      ground (arith, ok, ap (λ (t : ℕ × Space). t.1.map_base) is),
      ground (arith, ok, ap (λ (t : ℕ × Space). t.1.map_base) is),
      sym (ap (λ (t : ℕ × Space). t.1.prot) is),
    )

-- The new region begins where the bump pointer was.
pub map_dynamic-address :
    (page : ℕ) (s : Space) (size : ℕ) (p : Prot) (address : ℕ) (s' : Space)
    → map_dynamic page s size p ≡ done (address, s')
    → address ≡ s.map_base
unfolding map_dynamic
map_dynamic-address page s size p address s' e =
    let (ok, is) =
      require-eq-done (is_aligned page size && leb (u32 (s.map_base + size)) address_space) _
        (address, s') e in
    sym (ap (λ (t : ℕ × Space). t.0) is)

unmap-base :
    (page : ℕ) (s : Space) (address size : ℕ) (s' : Space)
    → unmap page s address size ≡ done s'
    → s.map_base ≡ s'.map_base
unfolding unmap
unmap-base page s address size s' e =
    ap (λ (t : Space). t.map_base)
      (require-eq-done
        (is_aligned page address
          && is_aligned page size
          && ltb address address_space
          && ltb (u32 (address + size)) address_space)
        _ s' e).1

set_memprotect-is :
    (page : ℕ) (s : Space) (address size : ℕ) (p : Prot) (s' : Space)
    → set_memprotect page s address size p ≡ done s'
    → record s { prot = protect s.prot s.map_base size p } ≡ s'
unfolding set_memprotect
set_memprotect-is page s address size p s' e =
    (require-eq-done
      (is_aligned page address
        && is_aligned page size
        && ltb address address_space
        && ltb (u32 (address + size)) address_space)
      _ s' e).1

-- Every region lies below the bump pointer, and that within the address space.
pub Reach-Below :
    {page : ℕ} {s : Space} {rs : List Region}
    → Reach page s rs
    → (s.map_base ≤ address_space) × Below s.map_base rs
unfolding initial
Reach-Below start = (omega arith, tt)
Reach-Below {page} {s = s'} (fixed {s} {rs = rs} address size p r small e) =
    let (le, below) = Reach-Below r in
    let (up, in_, in_space) = map_fixed-base page s address size p s' small le e in
    (in_space, (in_, Below-mono s.map_base s'.map_base rs up below))
Reach-Below {page} {s = s'} (dynamic {s} {rs = rs} address size p r small e) =
    let (le, below) = Reach-Below r in
    let (at, up, in_space, prot) = map_dynamic-base page s size p address s' small le e in
    (in_space, (omega arith, Below-mono s.map_base s'.map_base rs (omega arith) below))
Reach-Below {page} {s = s'} (unmapped {s} {rs = rs} address size r e) =
    let same = unmap-base page s address size s' e in rw same at (Reach-Below r)
Reach-Below {page} {s = s'} (protected {s} {rs = rs} address size p r e) =
    let same = ap (λ (t : Space). t.map_base) (set_memprotect-is page s address size p s' e) in
    rw same at (Reach-Below r)

-- A new region from `uw_target_map_memory_dynamic` begins behind all regions that were given out
-- before, ends within the address space, has the protection that was asked for, and leaves that of
-- all bytes below it. Sizes are below 2^31.
pub map_dynamic_fresh :
    {page : ℕ} {s : Space} {rs : List Region} (size : ℕ) (p : Prot) (address : ℕ) (s' : Space)
    → Reach page s rs
    → size < 2 ^ 31
    → map_dynamic page s size p ≡ done (address, s')
    → Below address rs
      × (address + size ≤ address_space)
      × ((x : ℕ) → x < size → s'.prot (address + x) ≡ p)
      × ((x : ℕ) → x < address → s'.prot x ≡ s.prot x)
map_dynamic_fresh {page} {s} {rs} size p address s' r small e =
    let (le, below) = Reach-Below r in
    let (at, up, in_space, prot) = map_dynamic-base page s size p address s' small le e in
    (
      rw at below,
      omega arith,
      λ x lt. ap (λ (f : ℕ → Prot). f (address + x)) prot ∙ ground arith,
      λ x lt. ap (λ (f : ℕ → Prot). f x) prot ∙ ground arith,
    )

-- `uw_set_memprotect` leaves the protection of every byte below the bump pointer, where all regions
-- lie that were given out.
pub set_memprotect_misses :
    (page : ℕ) (s : Space) (address size : ℕ) (p : Prot) (s' : Space) (x : ℕ)
    → x < s.map_base
    → set_memprotect page s address size p ≡ done s'
    → s'.prot x ≡ s.prot x
set_memprotect_misses page s address size p s' x lt e =
    sym (ap (λ (t : Space). t.prot x) (set_memprotect-is page s address size p s' e)) ∙ ground arith
