-- ===== src/Shards/View/Listing.antt =====
-- shardpreftable.go, lines 72 to 80: `getShards` and a reference, the shards in range of a predicate.
use mathlib.Core.List.{append-nil, append_assoc}
use sharding_p2p_poc.Prelude.{
  ℕ, zero, suc, ◌+◌, ◌≤◌, ◌<◌, ℤ, pos, Bool, false, ◌&&◌, ◌≡◌, refl, sym, ap, ◌∙◌, arith, List, [],
  ◌∷◌, ◌++◌, map, ltb, keep_if, contains, Bool-cases, inl, inr, int_eq, negsuc, leb,
}
use native.Mathlib.Decide.{ℕ_discrete}
use sharding_p2p_poc.Outcome.{ok}
use sharding_p2p_poc.Shards.{ListeningShards, num_shards, get_shards, get_shards_loop}
use sharding_p2p_poc.Shards.View.{has_shard, IsWellFormed, is_shard_set-valid}

-- s, s + 1, …, s + k - 1
abbrev pub range_from : ℕ → ℕ → List ℕ
range_from zero s = []
range_from (suc k) s = s ∷ range_from k (suc s)

abbrev pub all_shards : List ℕ
all_shards = range_from num_shards 0

-- The shards of a set, as the list of their IDs.
unfoldable pub shard_list : (ℕ → Bool) → List ℤ
shard_list p = map pos (keep_if p all_shards)

module _ (ls : ListeningShards) (w : IsWellFormed ls) where
  get_shards_loop_lem :
      (left s : ℕ) (acc : List ℤ)
      → s + left ≤ num_shards
      → get_shards_loop ls left s acc
        ≡ ok (acc ++ map pos (keep_if (has_shard ls) (range_from left s)))
  unfolding get_shards_loop
  get_shards_loop_lem zero s acc h = ap ok (sym (append-nil acc))
  get_shards_loop_lem (suc left) s acc h = elim (Bool-cases (has_shard ls s)) [
    | inl e ↦
        rw (is_shard_set-valid ls s w (omega arith), e)
          (get_shards_loop_lem left (suc s) (acc ++ pos s ∷ []) (omega arith)
            ∙ ap ok (append_assoc acc (pos s ∷ []) _))
    | inr e ↦
        rw (is_shard_set-valid ls s w (omega arith), e)
          (get_shards_loop_lem left (suc s) acc (omega arith))
  ]

  -- On a well-formed string `getShards` returns, and its result is the ascending list of the shards
  -- below 100 whose bit is set.
  pub get_shards_lem : get_shards ls ≡ ok (shard_list (has_shard ls))
  unfolding get_shards shard_list
  get_shards_lem = get_shards_loop_lem num_shards 0 [] (omega arith)

contains-range :
    (p : ℕ → Bool) (k s n : ℕ)
    → contains (map pos (keep_if p (range_from k s))) (pos n) ≡ (leb s n && (ltb n (s + k) && p n))
unfolding contains
contains-range p zero s n = ground arith
contains-range p (suc k) s n = elim (ℕ_discrete s n) [
  | yes e ↦ rw (← e) (ground (arith, contains-range p k (suc s) s))
  | no e ↦ ground (arith, contains-range p k (suc s) n)
]

-- A shard is in the list of a set exactly when it is below 100 and in the set.
pub contains-shard_list :
    (p : ℕ → Bool) (n : ℕ) → contains (shard_list p) (pos n) ≡ (ltb n num_shards && p n)
unfolding shard_list
contains-shard_list p n = contains-range p num_shards 0 n ∙ (ground arith)

contains_negative :
    (p : ℕ → Bool) (k s n : ℕ) → contains (map pos (keep_if p (range_from k s))) (negsuc n) ≡ false
unfolding contains
contains_negative p zero s n = refl
contains_negative p (suc k) s n = ground (arith, contains_negative p k (suc s) n)

pub contains-shard_list_negative :
    (p : ℕ → Bool) (n : ℕ) → contains (shard_list p) (negsuc n) ≡ false
unfolding shard_list
contains-shard_list_negative p n = contains_negative p num_shards 0 n

-- Sets with the same members below 100 have one list.
same_range :
    (p q : ℕ → Bool) (k s : ℕ)
    → ((n : ℕ) → n < s + k → p n ≡ q n)
    → keep_if p (range_from k s) ≡ keep_if q (range_from k s)
same_range p q zero s h = refl
same_range p q (suc k) s h =
    ground (arith, h s (omega arith), same_range p q k (suc s) (λ n lt. h n (omega arith)))

pub shard_list-ext :
    (p q : ℕ → Bool) → ((n : ℕ) → n < num_shards → p n ≡ q n) → shard_list p ≡ shard_list q
unfolding shard_list
shard_list-ext p q h = ap (map pos) (same_range p q num_shards 0 (λ n lt. h n lt))

none_kept : (k s : ℕ) → keep_if (λ n. false) (range_from k s) ≡ []
none_kept zero s = refl
none_kept (suc k) s = none_kept k (suc s)

pub shard_list-nobody : (p : ℕ → Bool) → ((n : ℕ) → p n ≡ false) → shard_list p ≡ []
unfolding shard_list
shard_list-nobody p h =
    shard_list-ext p (λ n. false) (λ n lt. h n) ∙ ap (map pos) (none_kept num_shards 0)

-- The numbers of a list ascend strictly from a bound.
abbrev pub Ascends : ℕ → List ℤ → Type 0
Ascends bound [] = Unit
Ascends bound (pos n ∷ ids) = (bound ≤ n) × Ascends (suc n) ids
Ascends bound (negsuc n ∷ ids) = ⊥

weaken : (a b : ℕ) (ids : List ℤ) → a ≤ b → Ascends b ids → Ascends a ids
weaken a b [] h s = tt
weaken a b (pos n ∷ ids) h s = (omega arith, s.1)
weaken a b (negsuc n ∷ ids) h s = s

pub range-Ascends : (p : ℕ → Bool) (k s : ℕ) → Ascends s (map pos (keep_if p (range_from k s)))
range-Ascends p zero s = tt
range-Ascends p (suc k) s = elim (Bool-cases (p s)) [
  | inl e ↦ rw e (omega arith, range-Ascends p k (suc s))
  | inr e ↦ rw e (weaken s (suc s) _ (omega arith) (range-Ascends p k (suc s)))
]
