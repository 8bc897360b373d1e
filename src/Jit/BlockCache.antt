-- ===== src/Jit/BlockCache.antt =====
-- The translated blocks of src/uwin-jit/basic_block_cache.cpp and the predictions of
-- include/uwin-jit/basic_block.h. The code generator is a parameter: for an address it gives the
-- addresses that its block may go to. A block is known by its place in the heap.
pub mod Predictions
pub mod Lookup
mod Tests
use uwin_old.Common.{ℕ, zero, suc, ◌+◌, ◌-◌, ◌*◌, ◌/◌, ◌%◌, ◌^◌, ◌≤◌, ◌<◌, bit_and, bit_or}
use uwin_old.Common.{◌≡◌, refl, sym, ap, ap₂, ◌∙◌, fun_ext, ◌≢◌, ◌↔◌, ◌⊎◌, inl, inr, arith}
use uwin_old.Common.{
  Bool, true, false, not, ◌&&◌, ◌||◌, Option, none, some, List, [], ◌∷◌, ◌++◌, map,
}
use uwin_old.Common.{
  ltb, leb, ◌==◌, if◌then◌else◌, Bool-cases, Option-cases, length, get_elem?, set,
}
use uwin_old.Common.{
  get_or, take, drop, replicate, length-append, length-set, get_elem?-set_self, get_elem?-set_ne,
}
use uwin_old.Common.{
  Outcome, done, panic, ◌>>=◌, ◌>>◌, require, u8, u16, u32, u64, sub32, sub64, signed32,
}
use uwin_old.Common.Int.{ℤ, pos, negsuc, pos_part, neg_part, sub_ℕ, ◌+ℤ◌, ◌-ℤ◌, ◌*ℤ◌, ◌≤ℤ◌, ltb_ℤ}
use uwin_old.Common.Tally.{at}

-- `basic_block`, without the code: the predictions are addresses with the blocks there, if known.
pub record BasicBlock : Type 0 where
  pub guest_address : ℕ
  pub out_predictions : List (ℕ × Option ℕ)

-- `cache`, with the blocks that were made and how many there are.
pub record BlockCache : Type 0 where
  pub cache : List (ℕ × ℕ)
  pub heap : ℕ → BasicBlock
  pub count : ℕ

-- `cache.find`
pub find_block : ℕ → List (ℕ × ℕ) → Option ℕ
find_block eip [] = none
find_block eip (entry ∷ entries) =
    let rest = find_block eip entries in if eip == entry.0 then some entry.1 else rest

abbrev pub Compiler : Type 0
Compiler = ℕ → List ℕ

-- The constructor of `basic_block`.
abbrev pub new_block : Compiler → ℕ → BasicBlock
new_block compile eip = record {
  guest_address = eip;
  out_predictions = map (λ a. (a, none)) (compile eip);
}

-- `compile_block`, for an address that is not in the cache
abbrev pub compile_block : Compiler → ℕ → BlockCache → ℕ × BlockCache
compile_block compile eip c = (
  c.count,
  record {
    cache = (eip, c.count) ∷ c.cache;
    heap = at c.heap c.count (new_block compile eip);
    count = c.count + 1;
  },
)

-- `p.second = block;` for the pair `k`, whose address is `a`
abbrev pub set_prediction : ℕ → ℕ → ℕ → ℕ → BlockCache → BlockCache
set_prediction b k a block c = record c {
  heap =
      at c.heap b
        (record (c.heap b) { out_predictions = set (c.heap b).out_predictions k (a, some block) });
}

abbrev pub Getter : Type 0
Getter = ℕ → BlockCache → ℕ × BlockCache

-- `for (auto& p : block->get_out_predictions())` from pair `k` on
pub predict_all : Getter → ℕ → ℕ → List ℕ → BlockCache → BlockCache
predict_all get b k [] c = c
predict_all get b k (a ∷ addresses) c =
    let r = get a c in predict_all get b (k + 1) addresses (set_prediction b k a r.0 r.1)

-- `get_native_basic_block_recur`, with so many levels left below `max_depth`
pub get_recur : Compiler → ℕ → Getter
get_recur compile zero eip c = elim (find_block eip c.cache) [
  | some block ↦ (block, c)
  | none ↦ compile_block compile eip c
]
get_recur compile (suc left) eip c = elim (find_block eip c.cache) [
  | some block ↦ (block, c)
  | none ↦
      let new = compile_block compile eip c in
      (new.0, predict_all (get_recur compile left) new.0 0 (compile eip) new.1)
]

-- `get_native_basic_block`
pub get_native_basic_block : Compiler → Getter
get_native_basic_block compile = get_recur compile 32

-- `get_native_basic_block_predicted`: the loop over the predictions.
pub predicted : List (ℕ × Option ℕ) → ℕ → Option ℕ
predicted [] eip = none
predicted (p ∷ predictions) eip =
    let rest = predicted predictions eip in if p.0 == eip then p.1 else rest

pub get_native_basic_block_predicted : Compiler → ℕ → Getter
get_native_basic_block_predicted compile b eip c = elim (predicted (c.heap b).out_predictions eip) [
  | some block ↦ (block, c)
  | none ↦ get_native_basic_block compile eip c
]

-- How `uw_cpu_loop` chooses the next block: by the one before, if there is one.
pub next_block : Compiler → Option ℕ → Getter
next_block compile none eip c = get_native_basic_block compile eip c
next_block compile (some b) eip c = get_native_basic_block_predicted compile b eip c
