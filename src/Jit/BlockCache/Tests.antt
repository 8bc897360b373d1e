-- ===== src/Jit/BlockCache/Tests.antt =====
-- Runs of src/uwin-jit/basic_block_cache.cpp.
use uwin_old.Common.{◌+◌, ◌≡◌, refl, arith, none, some, [], ◌∷◌, ltb, if◌then◌else◌}
use uwin_old.Jit.BlockCache.{
  BlockCache, find_block, Compiler, next_block, get_native_basic_block, get_recur, predict_all,
}
use uwin_old.Jit.BlockCache.Predictions.{IsSound}
use uwin_old.Jit.BlockCache.Lookup.{next_block-IsSound}

-- Code of three blocks, of which two jump to themselves or go on.
abbrev compiler : Compiler
compiler eip = if ltb eip 0x1008 then eip ∷ (eip + 4) ∷ [] else []

abbrev empty : BlockCache
empty = record {
  cache = [];
  heap = λ i. record { guest_address = 0; out_predictions = [] };
  count = 0;
}

empty-IsSound : IsSound empty
unfolding find_block
empty-IsSound = record { addressed = λ a block there. cc; agree = λ b lt. absurd (omega arith) }

-- The cache when the first block has been looked up.
abbrev filled : BlockCache
filled = (next_block compiler none 0x1000 empty).1

three_blocks : filled.count ≡ 3
unfolding next_block get_native_basic_block get_recur predict_all find_block
three_blocks = refl

next_block-IsSound_example :
    IsSound (next_block compiler (some 1) 0x1008 filled).1
    × ((find_block 0x1008 (next_block compiler (some 1) 0x1008 filled).1.cache
          ≡ some (next_block compiler (some 1) 0x1008 filled).0)
        × (((next_block compiler (some 1) 0x1008 filled).1.heap
              (next_block compiler (some 1) 0x1008 filled).0).guest_address
            ≡ 0x1008))
next_block-IsSound_example =
    next_block-IsSound compiler (some 1) 0x1008 filled
      (next_block-IsSound compiler none 0x1000 empty empty-IsSound tt).0
      (omega (arith, three_blocks))
