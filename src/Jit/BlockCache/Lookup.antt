-- ===== src/Jit/BlockCache/Lookup.antt =====
-- The block that `uw_cpu_loop` runs next, through src/uwin-jit/basic_block_cache.cpp or a prediction.
use uwin_old.Common.{ℕ, zero, suc, ◌<◌}
use uwin_old.Common.{◌≡◌, refl, sym, ap, ◌∙◌, inl, inr, arith}
use uwin_old.Common.{Option, none, some, List, [], ◌∷◌}
use uwin_old.Common.{◌==◌, if◌then◌else◌, Bool-cases, Option-cases}
use mathlib.Core.Path.{subst}
use uwin_old.Jit.BlockCache.{
  BlockCache, find_block, Compiler, compile_block, predict_all, get_recur, get_native_basic_block,
  predicted, get_native_basic_block_predicted, next_block,
}
use uwin_old.Jit.BlockCache.Predictions.{
  AreCached, IsSound, Grows, Finds, compile_block-IsSound, predict_all-IsSound, find_block-old,
}

-- What a call of a getter did, as its result says.
abbrev Found : ℕ → BlockCache → ℕ × BlockCache → Type 0
Found eip c r = IsSound r.1 × (Grows c r.1 × (find_block eip r.1.cache ≡ some r.0))

Found-old :
    (eip block : ℕ) (c : BlockCache)
    → IsSound c
    → find_block eip c.cache ≡ some block
    → Found eip c (block, c)
Found-old eip block c sound there = (sound, ((λ a b known. known), there))

find_block_self :
    (eip block : ℕ) (t : List (ℕ × ℕ)) → find_block eip ((eip, block) ∷ t) ≡ some block
unfolding find_block
find_block_self eip block t = ground arith

Found-new :
    (compile : Compiler) (eip : ℕ) (c : BlockCache)
    → IsSound c
    → find_block eip c.cache ≡ none
    → Found eip c (compile_block compile eip c)
Found-new compile eip c sound missing = (
  compile_block-IsSound compile eip c missing sound,
  (
    λ a block there. find_block-old eip c.count a block c.cache missing there,
    find_block_self eip c.count c.cache,
  ),
)

get_recur-old :
    (compile : Compiler) (left eip block : ℕ) (c : BlockCache)
    → find_block eip c.cache ≡ some block
    → get_recur compile left eip c ≡ (block, c)
unfolding get_recur
get_recur-old compile zero eip block c there = rw (there, get_recur) refl
get_recur-old compile (suc left) eip block c there = rw (there, get_recur) refl

get_recur-last :
    (compile : Compiler) (eip : ℕ) (c : BlockCache)
    → find_block eip c.cache ≡ none
    → get_recur compile zero eip c ≡ compile_block compile eip c
unfolding get_recur
get_recur-last compile eip c missing = rw (missing, get_recur) refl

get_recur-new :
    (compile : Compiler) (left eip : ℕ) (c : BlockCache)
    → find_block eip c.cache ≡ none
    → get_recur compile (suc left) eip c ≡ (
      c.count,
      predict_all (get_recur compile left) c.count 0 (compile eip) (compile_block compile eip c).1,
    )
unfolding get_recur
get_recur-new compile left eip c missing = rw (missing, get_recur) refl

Finds-get_recur : (compile : Compiler) (left : ℕ) → Finds (get_recur compile left)
Finds-get_recur compile zero eip c sound = elim (Option-cases (find_block eip c.cache)) [
  | inl missing ↦
      subst (λ r. Found eip c r) (sym (get_recur-last compile eip c missing))
        (Found-new compile eip c sound missing)
  | inr there ↦
      subst (λ r. Found eip c r) (sym (get_recur-old compile 0 eip there.0 c there.1))
        (Found-old eip there.0 c sound there.1)
]
Finds-get_recur compile (suc left) eip c sound = elim (Option-cases (find_block eip c.cache)) [
  | inl missing ↦
      let new = Found-new compile eip c sound missing in
      let rest =
        predict_all-IsSound (get_recur compile left) (Finds-get_recur compile left) c.count 0
          (compile eip) (compile_block compile eip c).1 new.0 in
      subst (λ r. Found eip c r) (sym (get_recur-new compile left eip c missing))
        (
          rest.0,
          ((λ a block there. rest.1 a block (new.1.0 a block there)), rest.1 eip c.count new.1.1),
        )
  | inr there ↦
      subst (λ r. Found eip c r) (sym (get_recur-old compile (suc left) eip there.0 c there.1))
        (Found-old eip there.0 c sound there.1)
]

-- A prediction that is known agrees with the cache.
predicted-AreCached :
    (t : List (ℕ × ℕ)) (ps : List (ℕ × Option ℕ)) (eip block : ℕ)
    → AreCached t ps
    → predicted ps eip ≡ some block
    → find_block eip t ≡ some block
unfolding predicted
predicted-AreCached t [] eip block all e = cc
predicted-AreCached t ((a, none) ∷ ps) eip block all e = elim (Bool-cases (a == eip)) [
  | inl same ↦
      let bad : none ≡ some block =
        subst (λ b. (if b then none else predicted ps eip) ≡ some block) same e in
      cc
  | inr other ↦
      predicted-AreCached t ps eip block all
        (subst (λ b. (if b then none else predicted ps eip) ≡ some block) other e)
]
predicted-AreCached t ((a, some x) ∷ ps) eip block all e = elim (Bool-cases (a == eip)) [
  | inl same ↦
      let at : a ≡ eip = ground (arith, same) in
      ap (λ k. find_block k t) (sym at)
      ∙ all.0
      ∙ subst (λ b. (if b then some x else predicted ps eip) ≡ some block) same e
  | inr other ↦
      predicted-AreCached t ps eip block all.1
        (subst (λ b. (if b then some x else predicted ps eip) ≡ some block) other e)
]

predicted-some :
    (compile : Compiler) (b eip block : ℕ) (c : BlockCache)
    → predicted (c.heap b).out_predictions eip ≡ some block
    → get_native_basic_block_predicted compile b eip c ≡ (block, c)
unfolding get_native_basic_block_predicted
predicted-some compile b eip block c there = rw (there, get_native_basic_block_predicted) refl

predicted-none :
    (compile : Compiler) (b eip : ℕ) (c : BlockCache)
    → predicted (c.heap b).out_predictions eip ≡ none
    → get_native_basic_block_predicted compile b eip c ≡ get_recur compile 32 eip c
unfolding get_native_basic_block_predicted get_native_basic_block
predicted-none compile b eip c missing = rw (missing, get_native_basic_block_predicted) refl

-- A block that was made, or none before the first.
abbrev pub IsMade : Option ℕ → BlockCache → Type 0
IsMade none c = Unit {0}
IsMade (some b) c = b < c.count

Finds-next_block :
    (compile : Compiler) (before : Option ℕ) (eip : ℕ) (c : BlockCache)
    → IsSound c
    → IsMade before c
    → Found eip c (next_block compile before eip c)
unfolding next_block get_native_basic_block
Finds-next_block compile none eip c sound made = Finds-get_recur compile 32 eip c sound
Finds-next_block compile (some b) eip c sound made =
    elim (Option-cases (predicted (c.heap b).out_predictions eip)) [
      | inl missing ↦
          subst (λ r. Found eip c r) (sym (predicted-none compile b eip c missing))
            (Finds-get_recur compile 32 eip c sound)
      | inr there ↦
          subst (λ r. Found eip c r) (sym (predicted-some compile b eip there.0 c there.1))
            (Found-old eip there.0 c sound (
              predicted-AreCached c.cache (c.heap b).out_predictions eip there.0
                (sound.agree b made) there.1))
    ]

-- The block that the loop runs next, predicted by the block before or not, is the block that the cache
-- then has for EIP, and it was translated from the code at EIP; the cache stays sound, for whatever
-- addresses the code generator predicts.
pub next_block-IsSound :
    (compile : Compiler) (before : Option ℕ) (eip : ℕ) (c : BlockCache)
    → IsSound c
    → IsMade before c
    → IsSound (next_block compile before eip c).1
      × ((find_block eip (next_block compile before eip c).1.cache
            ≡ some (next_block compile before eip c).0)
          × (((next_block compile before eip c).1.heap
                (next_block compile before eip c).0).guest_address
              ≡ eip))
next_block-IsSound compile before eip c sound made =
    let r = next_block compile before eip c in
    let found = Finds-next_block compile before eip c sound made in
    (found.0, (found.1.1, (found.0.addressed eip r.0 found.1.1).1))
