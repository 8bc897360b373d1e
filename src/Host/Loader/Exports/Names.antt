-- ===== src/Host/Loader/Exports/Names.antt =====
-- What `find_function_by_name` of src/uwin/ldr.cpp finds.
use uwin_old.Common.{ℕ, zero, suc, ◌+◌, ◌*◌, ◌^◌, ◌≤◌, ◌<◌}
use uwin_old.Common.{◌≡◌, refl, ◌∙◌, arith}
use uwin_old.Common.{Bool, true, false}
use uwin_old.Common.{ltb, ◌==◌}
use uwin_old.Common.{done, u32, sub32}
use native.Mathlib.Decide.{ℕ_discrete}
use uwin_old.Common.Bytes.{Memory, load}
use uwin_old.Host.Loader.Exports.{
  Module, ordinal_base, name_pointer_count, export_entry, name_pointer, ordinal_entry, inside_edata,
  find_function_by_ordinal, find_name, find_function_by_name,
}

-- The name at a place of the table is the one that is looked for.
abbrev pub is_at : (ℕ → Bool) → Module → Memory → ℕ → Bool
is_at is_name pe m i = is_name (u32 (pe.image_base + name_pointer pe m i))

-- The address of the function that the name at a place stands for.
abbrev pub address_at : Module → Memory → ℕ → ℕ
address_at pe m i = u32 (pe.image_base + export_entry pe m (ordinal_entry pe m i))

load_two : (a : ℕ) (m : Memory) → load 2 a m < 2 ^ 16
unfolding load
load_two a m = omega arith

load_four : (a : ℕ) (m : Memory) → load 4 a m < 2 ^ 32
unfolding load
load_four a m = omega arith

unbiased : (b o : ℕ) → b < 2 ^ 32 → o < 2 ^ 16 → sub32 (u32 (b + o)) b ≡ o
unbiased b o small lt = omega arith

-- An ordinal whose entry is taken for a function's.
find_function_by_ordinal-entry :
    (pe : Module) (m : Memory) (biased i : ℕ)
    → (pe.export_directory == 0) ≡ false
    → sub32 biased (ordinal_base pe m) ≡ i
    → inside_edata pe (export_entry pe m i) ≡ false
    → find_function_by_ordinal pe biased m ≡ done (u32 (pe.image_base + export_entry pe m i))
unfolding find_function_by_ordinal
find_function_by_ordinal-entry pe m biased i has at outside = rw (has, at, outside) refl

find_function_by_ordinal-biased :
    (pe : Module) (m : Memory) (i : ℕ)
    → (pe.export_directory == 0) ≡ false
    → inside_edata pe (export_entry pe m (ordinal_entry pe m i)) ≡ false
    → find_function_by_ordinal pe (u32 (ordinal_base pe m + ordinal_entry pe m i)) m
      ≡ done (address_at pe m i)
find_function_by_ordinal-biased pe m i has outside =
    let o = ordinal_entry pe m i in
    find_function_by_ordinal-entry pe m (u32 (ordinal_base pe m + o)) o has
      (unbiased (ordinal_base pe m) o (load_four (pe.export_directory + 16) m)
        (load_two (u32 (pe.image_base + load 4 (pe.export_directory + 36) m) + 2 * i) m))
      outside

module _ (is_name : ℕ → Bool) (pe : Module) (m : Memory) where
  -- The search stops at the first name that is the one.
  find_name-first :
      (k i left : ℕ)
      → i ≤ k
      → k < i + left
      → is_at is_name pe m k ≡ true
      → ((j : ℕ) → j < k → is_at is_name pe m j ≡ false)
      → find_name is_name pe m i left
        ≡ find_function_by_ordinal pe (u32 (ordinal_base pe m + ordinal_entry pe m k)) m
  unfolding find_name
  find_name-first k i zero le lt here before = absurd (omega arith)
  find_name-first k i (suc left) le lt here before = elim (ℕ_discrete i k) [
    | yes at ↦ rw (at, here) refl
    | no off ↦
        rw (before i (omega arith))
          (find_name-first k (i + 1) left (omega arith) (omega arith) here before)
  ]

  find_name-none :
      (i left : ℕ)
      → ((j : ℕ) → j < i + left → is_at is_name pe m j ≡ false)
      → find_name is_name pe m i left ≡ done 0
  unfolding find_name
  find_name-none i zero none_of = refl
  find_name-none i (suc left) none_of =
      rw (none_of i (omega arith)) (find_name-none (i + 1) left (λ j lt. none_of j (omega arith)))

  searched :
      name_pointer_count pe m < 2 ^ 31
      → (pe.export_directory == 0) ≡ false
      → (load 4 (pe.export_directory + 32) m == 0) ≡ false
      → find_function_by_name is_name pe m ≡ find_name is_name pe m 0 (name_pointer_count pe m)
  unfolding find_function_by_name
  searched small has names =
      let as_int : ltb (name_pointer_count pe m) (2 ^ 31) ≡ true = ground (arith, small) in
      rw (has, names, as_int) refl

-- In a module with an export directory and fewer than 2^31 names, `find_function_by_name` gives the address
-- that the address table has for the first name that is the one looked for, through the table
-- of ordinals, if the loader does not take that entry for a forwarder.
pub find_function_by_name-first :
    (is_name : ℕ → Bool) (pe : Module) (m : Memory) (k : ℕ)
    → name_pointer_count pe m < 2 ^ 31
    → (pe.export_directory == 0) ≡ false
    → (load 4 (pe.export_directory + 32) m == 0) ≡ false
    → k < name_pointer_count pe m
    → is_at is_name pe m k ≡ true
    → ((j : ℕ) → j < k → is_at is_name pe m j ≡ false)
    → inside_edata pe (export_entry pe m (ordinal_entry pe m k)) ≡ false
    → find_function_by_name is_name pe m ≡ done (address_at pe m k)
find_function_by_name-first is_name pe m k small has names lt here before outside =
    searched is_name pe m small has names
    ∙ find_name-first is_name pe m k 0 (name_pointer_count pe m) (omega arith) (omega arith) here
        before
    ∙ find_function_by_ordinal-biased pe m k has outside

-- The entry of an ordinal is a forwarder: it lies in the export directory of the image.
abbrev pub IsForwarder : Module → ℕ → Type 0
IsForwarder pe rva =
    (pe.export_directory ≤ pe.image_base + rva)
    × (pe.image_base + rva < pe.export_directory + pe.export_directory_size)

-- A forwarder in an image that is smaller than its own base address is not recognised: the assertion
-- against forwarders passes and the address of the forwarder's text is given as that of a function.
pub find_function_by_ordinal-forwarder :
    (pe : Module) (m : Memory) (biased : ℕ)
    → (pe.export_directory == 0) ≡ false
    → IsForwarder pe (export_entry pe m (sub32 biased (ordinal_base pe m)))
    → pe.image_base ≤ pe.export_directory
    → export_entry pe m (sub32 biased (ordinal_base pe m)) < pe.image_base
    → find_function_by_ordinal pe biased m
      ≡ done (u32 (pe.image_base + export_entry pe m (sub32 biased (ordinal_base pe m))))
find_function_by_ordinal-forwarder pe m biased has forwards inside below =
    let rva = export_entry pe m (sub32 biased (ordinal_base pe m)) in
    let passes : inside_edata pe rva ≡ false = ground (arith, inside, below) in
    find_function_by_ordinal-entry pe m biased (sub32 biased (ordinal_base pe m)) has refl passes
