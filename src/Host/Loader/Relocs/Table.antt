-- ===== src/Host/Loader/Relocs/Table.antt =====
-- The loops of `load_pe` in src/uwin/ldr.cpp over a relocation table that stands in memory.
use uwin_old.Common.{ℕ, zero, suc, ◌+◌, ◌*◌, ◌/◌, ◌^◌, ◌≤◌, ◌<◌}
use uwin_old.Common.{◌≡◌, refl, sym, ap, ◌∙◌, ◌⊎◌, inl, inr, arith}
use uwin_old.Common.{true, false, List, [], ◌∷◌, ◌++◌}
use uwin_old.Common.{ltb, ◌==◌, if◌then◌else◌, length}
use uwin_old.Common.{done, sub32}
use mathlib.Core.Path.{subst}
use uwin_old.Common.Bytes.{Memory, load, load-same}
use uwin_old.Host.Loader.Runs.{ended}
use uwin_old.Host.Loader.Relocs.{process_reloc, target, relocate_block}
use uwin_old.Host.Loader.Relocs.Words.{shifted, process_reloc-shifted}
use uwin_old.Host.Loader.Relocs.Places.{shift_all, shifted-outside, Apart}

-- A block of the table: a page and the entries for it.
pub record Block : Type 0 where
  pub page : ℕ
  pub entries : List ℕ

-- The types that the loader knows: ABSOLUTE, which pads, and HIGHLOW.
abbrev pub Supported : List ℕ → Type 0
Supported [] = Unit {0}
Supported (e ∷ es) = ((e / 2 ^ 12 ≡ 0) ⊎ (e / 2 ^ 12 ≡ 3)) × Supported es

-- The entries stand in memory from an address on, as 16-bit words.
abbrev pub Listed : Memory → ℕ → List ℕ → Type 0
Listed m a [] = Unit {0}
Listed m a (e ∷ es) = (load 2 a m ≡ e) × Listed m (a + 2) es

abbrev pub block_size : Block → ℕ
block_size b = 8 + 2 * length b.entries

abbrev pub table_size : List Block → ℕ
table_size [] = 0
table_size (b ∷ bs) = block_size b + table_size bs

-- The blocks stand in memory from an address on, with their pages and sizes.
abbrev pub Encodes : Memory → ℕ → List Block → Type 0
Encodes m a [] = Unit {0}
Encodes m a (b ∷ bs) =
    ((load 4 a m ≡ b.page) × (load 4 (a + 4) m ≡ block_size b))
    × ((Supported b.entries × Listed m (a + 8) b.entries) × Encodes m (a + block_size b) bs)

-- The places that the entries of a page and those of the whole table name.
abbrev pub places : ℕ → ℕ → List ℕ → List ℕ
places base page [] = []
places base page (e ∷ es) =
    if e / 2 ^ 12 == 3 then target base page e ∷ places base page es else places base page es

abbrev pub all_places : ℕ → List Block → List ℕ
all_places base [] = []
all_places base (b ∷ bs) = places base b.page b.entries ++ all_places base bs

abbrev pub Agree : ℕ → ℕ → Memory → Memory → Type 0
Agree lo hi m m' = (b : ℕ) → lo ≤ b → b < hi → m b ≡ m' b

pub load-Agree :
    (n a lo hi : ℕ) (m m' : Memory)
    → Agree lo hi m m'
    → lo ≤ a
    → a + n ≤ hi
    → load n a m' ≡ load n a m
load-Agree n a lo hi m m' agree le ge =
    sym (load-same n a m m' (λ b l h. agree b (omega arith) (omega arith)))

count_lem : (size n : ℕ) → size ≡ 8 + 2 * n → 8 + 2 * n < 2 ^ 32 → sub32 size 8 / 2 ≡ n
count_lem size n is lt = omega arith

process_reloc-skipped :
    (base page e d : ℕ) (m : Memory) → e / 2 ^ 12 ≡ 0 → process_reloc base page e d m ≡ done m
unfolding process_reloc
process_reloc-skipped base page e d m zero_type = rw zero_type refl

places-skipped :
    (base page e : ℕ) (es : List ℕ)
    → e / 2 ^ 12 ≡ 0
    → places base page (e ∷ es) ≡ places base page es
places-skipped base page e es pads = rw pads refl

places-shifted :
    (base page e : ℕ) (es : List ℕ)
    → e / 2 ^ 12 ≡ 3
    → places base page (e ∷ es) ≡ target base page e ∷ places base page es
places-shifted base page e es high_low = rw high_low refl

next_round :
    (fuel base d table i page e : ℕ) (m m' : Memory)
    → ltb i (sub32 (load 4 (table + 4) m) 8 / 2) ≡ true
    → load 4 table m ≡ page
    → load 2 (table + 8 + 2 * i) m ≡ e
    → process_reloc base page e d m ≡ done m'
    → relocate_block (suc fuel) base d table i m ≡ relocate_block fuel base d table (i + 1) m'
unfolding relocate_block
next_round fuel base d table i page e m m' more at_page at_entry step =
    rw (more, at_page, at_entry, step) refl

last_round :
    (fuel base d table i : ℕ) (m : Memory)
    → ltb i (sub32 (load 4 (table + 4) m) 8 / 2) ≡ false
    → relocate_block (suc fuel) base d table i m ≡ ended m
unfolding relocate_block
last_round fuel base d table i m stop = rw stop refl

Agree-shifted :
    (d lo hi t : ℕ) (m₀ m : Memory)
    → (t + 4 ≤ lo) ⊎ (hi ≤ t)
    → Agree lo hi m₀ m
    → Agree lo hi m₀ (shifted d t m)
Agree-shifted d lo hi t m₀ m apart agree b l h =
    agree b l h ∙ sym (shifted-outside d t m lo hi b apart l h)

-- The rounds over the entries of a block, with the table as it was before the first.
module _ (base d lo hi table page n : ℕ) (m₀ : Memory) (below : lo ≤ table)
    (inside : table + (8 + 2 * n) ≤ hi) (small : 8 + 2 * n < 2 ^ 32)
    (at_page : load 4 table m₀ ≡ page) (at_size : load 4 (table + 4) m₀ ≡ 8 + 2 * n) where
  pub relocate_block-shift_all :
      (fuel i : ℕ) (es : List ℕ) (m : Memory)
      → length es < fuel
      → i + length es ≡ n
      → Supported es
      → Listed m₀ (table + 8 + 2 * i) es
      → Apart lo hi (places base page es)
      → Agree lo hi m₀ m
      → relocate_block fuel base d table i m ≡ ended (shift_all d (places base page es) m)
  unfolding shift_all
  relocate_block-shift_all zero i es m enough sum ok listed apart agree = absurd (omega arith)
  relocate_block-shift_all (suc fuel) i [] m enough sum ok listed apart agree =
      let size = load-Agree 4 (table + 4) lo hi m₀ m agree (omega arith) (omega arith) ∙ at_size in
      last_round fuel base d table i m
        (rw (count_lem (load 4 (table + 4) m) n size small) (ground arith))
  relocate_block-shift_all (suc fuel) i (e ∷ es) m enough sum ok listed apart agree =
      let size = load-Agree 4 (table + 4) lo hi m₀ m agree (omega arith) (omega arith) ∙ at_size in
      let more : ltb i (sub32 (load 4 (table + 4) m) 8 / 2) ≡ true =
        rw (count_lem (load 4 (table + 4) m) n size small) (ground arith) in
      let to_page = load-Agree 4 table lo hi m₀ m agree below (omega arith) ∙ at_page in
      let to_entry =
        load-Agree 2 (table + 8 + 2 * i) lo hi m₀ m agree (omega arith) (omega arith) ∙ listed.0 in
      let at_next : table + 8 + 2 * i + 2 ≡ table + 8 + 2 * (i + 1) = omega arith in
      let listed_next = subst (λ a. Listed m₀ a es) at_next listed.1 in
      elim ok.0 [
        | inl pads ↦
            let skip = places-skipped base page e es pads in
            next_round fuel base d table i page e m m more to_page to_entry
              (process_reloc-skipped base page e d m pads)
            ∙ relocate_block-shift_all fuel (i + 1) es m (omega arith) (omega arith) ok.1
                listed_next (subst (λ ts. Apart lo hi ts) skip apart) agree
            ∙ ap (λ ts. ended (shift_all d ts m)) (sym skip)
        | inr high_low ↦
            let more_places = places-shifted base page e es high_low in
            let apart' = subst (λ ts. Apart lo hi ts) more_places apart in
            let m' = shifted d (target base page e) m in
            next_round fuel base d table i page e m m' more to_page to_entry
              (process_reloc-shifted base page e d m high_low)
            ∙ relocate_block-shift_all fuel (i + 1) es m' (omega arith) (omega arith) ok.1
                listed_next apart'.1
                (Agree-shifted d lo hi (target base page e) m₀ m apart'.0 agree)
            ∙ ap (λ ts. ended (shift_all d ts m)) (sym more_places)
      ]
