-- ===== src/Jit/BlockCache/Predictions.antt =====
-- The blocks that the predictions of src/uwin-jit/basic_block_cache.cpp lead to.
use uwin_old.Common.{ℕ, zero, suc, ◌+◌, ◌<◌}
use uwin_old.Common.{◌≡◌, sym, ap, ◌∙◌, ◌⊎◌, inl, inr, arith}
use uwin_old.Common.{true, false, Option, none, some, List, [], ◌∷◌, map}
use uwin_old.Common.{◌==◌, if◌then◌else◌, set}
use mathlib.Core.Path.{subst}
use native.Mathlib.Decide.{ℕ_discrete}
use uwin_old.Common.Tally.{at, at_other, at_self}
use uwin_old.Jit.BlockCache.{
  BasicBlock, BlockCache, find_block, Compiler, new_block, compile_block, set_prediction, Getter,
  predict_all,
}

-- Every prediction that is known is what the cache has for its address.
abbrev pub AreCached : List (ℕ × ℕ) → List (ℕ × Option ℕ) → Type 0
AreCached cache [] = Unit {0}
AreCached cache ((a, none) ∷ predictions) = AreCached cache predictions
AreCached cache ((a, some block) ∷ predictions) =
    (find_block a cache ≡ some block) × AreCached cache predictions

-- The cache has the block of the right address for each of its keys, and the blocks have
-- predictions that agree with the cache.
pub record IsSound (c : BlockCache) : Type 0 where
  pub addressed :
      (a block : ℕ)
      → find_block a c.cache ≡ some block
      → (block < c.count) × ((c.heap block).guest_address ≡ a)
  pub agree : (b : ℕ) → b < c.count → AreCached c.cache (c.heap b).out_predictions

abbrev pub Grows : BlockCache → BlockCache → Type 0
Grows c c' = (a block : ℕ) → find_block a c.cache ≡ some block → find_block a c'.cache ≡ some block

AreCached-Grows :
    (t t' : List (ℕ × ℕ)) (ps : List (ℕ × Option ℕ))
    → ((a block : ℕ) → find_block a t ≡ some block → find_block a t' ≡ some block)
    → AreCached t ps
    → AreCached t' ps
AreCached-Grows t t' [] grows all = tt
AreCached-Grows t t' ((a, none) ∷ ps) grows all = AreCached-Grows t t' ps grows all
AreCached-Grows t t' ((a, some block) ∷ ps) grows all =
    (grows a block all.0, AreCached-Grows t t' ps grows all.1)

AreCached-none : (t : List (ℕ × ℕ)) (xs : List ℕ) → AreCached t (map (λ a. (a, none)) xs)
AreCached-none t [] = tt
AreCached-none t (a ∷ xs) = AreCached-none t xs

AreCached-set :
    (t : List (ℕ × ℕ)) (ps : List (ℕ × Option ℕ)) (k a block : ℕ)
    → find_block a t ≡ some block
    → AreCached t ps
    → AreCached t (set ps k (a, some block))
AreCached-set t [] k a block there all = tt
AreCached-set t ((x, none) ∷ ps) zero a block there all = (there, all)
AreCached-set t ((x, some y) ∷ ps) zero a block there all = (there, all.1)
AreCached-set t ((x, none) ∷ ps) (suc k) a block there all = AreCached-set t ps k a block there all
AreCached-set t ((x, some y) ∷ ps) (suc k) a block there all =
    (all.0, AreCached-set t ps k a block there all.1)

pub find_block-old :
    (eip count a block : ℕ) (t : List (ℕ × ℕ))
    → find_block eip t ≡ none
    → find_block a t ≡ some block
    → find_block a ((eip, count) ∷ t) ≡ some block
unfolding find_block
find_block-old eip count a block t missing there = elim (ℕ_discrete a eip) [
  | yes same ↦ let bad = sym missing ∙ ap (λ x. find_block x t) (sym same) ∙ there in cc
  | no other ↦ let differ : (a == eip) ≡ false = ground (arith, other) in rw differ there
]

abbrev chosen : ℕ → Option ℕ → ℕ
chosen d (some n) = n
chosen d none = d

find_block-new :
    (eip count a block : ℕ) (t : List (ℕ × ℕ))
    → find_block a ((eip, count) ∷ t) ≡ some block
    → ((a ≡ eip) × (block ≡ count)) ⊎ (find_block a t ≡ some block)
unfolding find_block
find_block-new eip count a block t there = elim (ℕ_discrete a eip) [
  | yes same ↦
      let now : (a == eip) ≡ true = ground (arith, same) in
      let both : some count ≡ some block =
        subst (λ b. (if b then some count else find_block a t) ≡ some block) now there in
      inl (same, sym (ap (λ o. chosen count o) both))
  | no other ↦
      let differ : (a == eip) ≡ false = ground (arith, other) in
      inr (subst (λ b. (if b then some count else find_block a t) ≡ some block) differ there)
]

pub compile_block-IsSound :
    (compile : Compiler) (eip : ℕ) (c : BlockCache)
    → find_block eip c.cache ≡ none
    → IsSound c
    → IsSound (compile_block compile eip c).1
compile_block-IsSound compile eip c missing sound = record {
  addressed = λ a block there. elim (find_block-new eip c.count a block c.cache there) [
    | inl new ↦ (
      omega (arith, new.1),
      ap (λ b. (at c.heap c.count (new_block compile eip) b).guest_address) new.1
          ∙ ap (λ (x : BasicBlock). x.guest_address)
              (at_self c.heap c.count (new_block compile eip))
          ∙ sym new.0,
    )
    | inr old ↦
        let known = sound.addressed a block old in
        (
          omega (arith, known.0),
          ap (λ (x : BasicBlock). x.guest_address)
                (at_other c.heap c.count block (new_block compile eip)
                  (λ e. omega (arith, e, known.0)))
              ∙ known.1,
        )
  ];
  agree = λ b lt.
      let cache' = (eip, c.count) ∷ c.cache in
      elim (ℕ_discrete c.count b) [
        | yes new ↦
            subst (λ (x : BasicBlock). AreCached cache' x.out_predictions)
              (sym (
                ap (λ i. at c.heap c.count (new_block compile eip) i) (sym new)
                ∙ at_self c.heap c.count (new_block compile eip)))
              (AreCached-none cache' (compile eip))
        | no old ↦
            subst (λ (x : BasicBlock). AreCached cache' x.out_predictions)
              (sym (at_other c.heap c.count b (new_block compile eip) old))
              (AreCached-Grows c.cache cache' (c.heap b).out_predictions
                (λ a block there. find_block-old eip c.count a block c.cache missing there)
                (sound.agree b (omega (arith, lt, old))))
      ];
}

set_prediction-IsSound :
    (b k a block : ℕ) (c : BlockCache)
    → find_block a c.cache ≡ some block
    → IsSound c
    → IsSound (set_prediction b k a block c)
set_prediction-IsSound b k a block c there sound =
    let changed = record (c.heap b) {
      out_predictions = set (c.heap b).out_predictions k (a, some block);
    } in
    record {
      addressed = λ x y found.
          let known = sound.addressed x y found in
          (
            known.0,
            elim (ℕ_discrete b y) [
              | yes same ↦
                  ap (λ i. (at c.heap b changed i).guest_address) (sym same)
                  ∙ ap (λ (z : BasicBlock). z.guest_address) (at_self c.heap b changed)
                  ∙ ap (λ i. (c.heap i).guest_address) same
                  ∙ known.1
              | no other ↦
                  ap (λ (z : BasicBlock). z.guest_address) (at_other c.heap b y changed other)
                  ∙ known.1
            ],
          );
      agree = λ y lt. elim (ℕ_discrete b y) [
        | yes same ↦
            subst (λ (z : BasicBlock). AreCached c.cache z.out_predictions)
              (sym (ap (λ i. at c.heap b changed i) (sym same) ∙ at_self c.heap b changed))
              (AreCached-set c.cache (c.heap b).out_predictions k a block there
                (sound.agree b (omega (arith, lt, same))))
        | no other ↦
            subst (λ (z : BasicBlock). AreCached c.cache z.out_predictions)
              (sym (at_other c.heap b y changed other)) (sound.agree y lt)
      ];
    }

-- What a call gives: the block that the cache then has for the address.
abbrev pub Finds : Getter → Type 0
Finds get =
    (eip : ℕ) (c : BlockCache)
    → IsSound c
    → IsSound (get eip c).1
      × (Grows c (get eip c).1 × (find_block eip (get eip c).1.cache ≡ some (get eip c).0))

pub predict_all-IsSound :
    (get : Getter) (finds : Finds get) (b k : ℕ) (addresses : List ℕ) (c : BlockCache)
    → IsSound c
    → IsSound (predict_all get b k addresses c) × Grows c (predict_all get b k addresses c)
unfolding predict_all
predict_all-IsSound get finds b k [] c sound = (sound, λ a block there. there)
predict_all-IsSound get finds b k (a ∷ addresses) c sound =
    let r = get a c in
    let one = finds a c sound in
    let two = set_prediction-IsSound b k a r.0 r.1 one.1.1 one.0 in
    let rest =
      predict_all-IsSound get finds b (k + 1) addresses (set_prediction b k a r.0 r.1) two in
    (rest.0, λ x y there. rest.1 x y (one.1.0 x y there))
