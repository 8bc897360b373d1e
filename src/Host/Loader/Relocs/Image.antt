-- ===== src/Host/Loader/Relocs/Image.antt =====
-- The relocation of a whole image by `load_pe` in src/uwin/ldr.cpp.
use uwin_old.Common.{ℕ, zero, suc, ◌+◌, ◌*◌, ◌^◌, ◌≤◌, ◌<◌}
use uwin_old.Common.{◌≡◌, refl, sym, ap, ◌∙◌, arith}
use uwin_old.Common.{true, false, List, [], ◌∷◌, ◌++◌}
use uwin_old.Common.{ltb, length}
use mathlib.Core.Path.{subst}
use uwin_old.Common.Bytes.{Memory, load}
use uwin_old.Host.Loader.Runs.{ended}
use uwin_old.Host.Loader.Relocs.{relocate_block, relocate_table}
use uwin_old.Host.Loader.Relocs.Words.{shifted}
use uwin_old.Host.Loader.Relocs.Places.{
  shift_all, shift_all-outside, shift_all-Moved, Apart, Separate, Moved,
}
use uwin_old.Host.Loader.Relocs.Table.{
  Block, Listed, Encodes, table_size, block_size, places, all_places, Agree, load-Agree,
  relocate_block-shift_all,
}

Apart-append :
    (lo hi : ℕ) (ts us : List ℕ) → Apart lo hi (ts ++ us) → Apart lo hi ts × Apart lo hi us
Apart-append lo hi [] us apart = (tt, apart)
Apart-append lo hi (t ∷ ts) us apart =
    let rest = Apart-append lo hi ts us apart.1 in ((apart.0, rest.0), rest.1)

shift_all-append :
    (d : ℕ) (ts us : List ℕ) (m : Memory)
    → shift_all d (ts ++ us) m ≡ shift_all d us (shift_all d ts m)
unfolding shift_all
shift_all-append d [] us m = refl
shift_all-append d (t ∷ ts) us m = shift_all-append d ts us (shifted d t m)

next_reloc_block :
    (fuel base d table table_end size : ℕ) (m m' : Memory)
    → table < table_end
    → relocate_block fuel base d table 0 m ≡ ended m'
    → load 4 (table + 4) m' ≡ size
    → relocate_table (suc fuel) base d table table_end m
      ≡ relocate_table fuel base d (table + size) table_end m'
unfolding relocate_table
next_reloc_block fuel base d table table_end size m m' lt step at_size =
    let more : ltb table table_end ≡ true = ground (arith, lt) in rw (more, step, at_size) refl

last_block :
    (fuel base d table : ℕ) (m : Memory) → relocate_table (suc fuel) base d table table m ≡ ended m
unfolding relocate_table
last_block fuel base d table m = let stop : ltb table table ≡ false = ground arith in rw stop refl

-- The rounds over the blocks, with the table as it was before the first.
module _ (base d lo hi : ℕ) (m₀ : Memory) (small : hi < 2 ^ 32) where
  pub relocate_table-shift_all :
      (fuel table : ℕ) (bs : List Block) (m : Memory)
      → table_size bs < fuel
      → lo ≤ table
      → table + table_size bs ≡ hi
      → Encodes m₀ table bs
      → Apart lo hi (all_places base bs)
      → Agree lo hi m₀ m
      → relocate_table fuel base d table hi m ≡ ended (shift_all d (all_places base bs) m)
  unfolding shift_all
  relocate_table-shift_all zero table bs m enough below sum encodes apart agree =
      absurd (omega arith)
  relocate_table-shift_all (suc fuel) table [] m enough below sum encodes apart agree =
      let at : hi ≡ table = omega arith in
      ap (λ e. relocate_table (suc fuel) base d table e m) at ∙ last_block fuel base d table m
  relocate_table-shift_all (suc fuel) table (b ∷ bs) m enough below sum encodes apart agree =
      let both = Apart-append lo hi (places base b.page b.entries) (all_places base bs) apart in
      let first : table + 8 ≡ table + 8 + 2 * 0 = omega arith in
      let m' = shift_all d (places base b.page b.entries) m in
      let agree' : Agree lo hi m₀ m' = λ a l h.
        agree a l h
        ∙ sym (shift_all-outside d (places base b.page b.entries) m lo hi a both.0 l h) in
      let step =
        relocate_block-shift_all base d lo hi table b.page (length b.entries) m₀ below (omega arith)
          (omega arith) encodes.0.0 encodes.0.1 fuel 0 b.entries m (omega arith) (omega arith)
          encodes.1.0.0 (subst (λ a. Listed m₀ a b.entries) first encodes.1.0.1) both.0 agree in
      let size =
        load-Agree 4 (table + 4) lo hi m₀ m' agree' (omega arith) (omega arith) ∙ encodes.0.1 in
      next_reloc_block fuel base d table hi (block_size b) m m' (omega arith) step size
      ∙ relocate_table-shift_all fuel (table + block_size b) bs m' (omega arith) (omega arith)
          (omega arith) encodes.1.1 both.1 agree'
      ∙ ap (λ m. ended m)
          (sym (shift_all-append d (places base b.page b.entries) (all_places base bs) m))

-- What is left of the memory: every word that the table names is shifted by the difference, and every
-- other byte is as before.
abbrev pub IsRelocated : ℕ → List ℕ → Memory → Memory → Type 0
IsRelocated d ts m m' = Moved d m m' ts × ((a : ℕ) → Apart a (a + 1) ts → m' a ≡ m a)

-- For a table that stands in memory below the top of the address space, with entries of the known types
-- whose words neither share bytes with each other nor with the table, the loop over it ends within one
-- round more than the table has bytes; then every word that it names holds the old word plus the
-- difference, modulo 2^32, and every byte outside these words is as before.
pub relocate_table_lem :
    (fuel base d table : ℕ) (bs : List Block) (m : Memory)
    → Encodes m table bs
    → table + table_size bs < 2 ^ 32
    → Apart table (table + table_size bs) (all_places base bs)
    → Separate (all_places base bs)
    → table_size bs < fuel
    → (m' : Memory) × ((relocate_table fuel base d table (table + table_size bs) m ≡ ended m')
        × IsRelocated d (all_places base bs) m m')
relocate_table_lem fuel base d table bs m encodes small apart separate enough = (
  shift_all d (all_places base bs) m,
  (
    relocate_table-shift_all base d table (table + table_size bs) m small fuel table bs m enough
        (omega arith) refl encodes apart (λ b l h. refl),
    (
      shift_all-Moved d (all_places base bs) m separate,
      λ a outside.
          shift_all-outside d (all_places base bs) m a (a + 1) a outside (omega arith)
            (omega arith),
    ),
  ),
)
