-- ===== src/Shards/View/Slices.antt =====
-- shardpreftable.go, lines 72 to 87: `fromSlice` and `getShards` together.
use sharding_p2p_poc.Prelude.{
  ℕ, zero, suc, ℤ, pos, negsuc, Bool, ◌&&◌, ◌||◌, ◌≡◌, refl, ap, ◌∙◌, arith, List, [], ◌∷◌, ltb,
  nat_beq, contains, All, map, keep_if, Bool-cases, inl, inr, int_eq,
}
use native.Mathlib.Decide.{dec_lt}
use sharding_p2p_poc.Outcome.{Outcome, ok, ignoring, ◌>>=◌}
use sharding_p2p_poc.Shards.{
  ListeningShards, new_listening_shards, num_shards, set_shard, get_shards, from_slice,
}
use sharding_p2p_poc.Shards.View.{
  has_shard, IsWellFormed, Updates, set_shard-Updates, large_id-refused,
  new_listening_shards-IsWellFormed, has_shard-new,
}
use sharding_p2p_poc.Shards.View.Listing.{
  range_from, shard_list, get_shards_lem, shard_list-ext, contains-shard_list,
}

abbrev pub IsNonNegative : ℤ → Type 0
IsNonNegative (pos n) = Unit
IsNonNegative (negsuc n) = ⊥

-- The shards in range that a slice names.
abbrev pub named : List ℤ → ℕ → Bool
named ids t = ltb t num_shards && contains ids (pos t)

-- One round: a shard in range is set, any other ID changes nothing.
set_one :
    (ls : ListeningShards) (s : ℕ)
    → IsWellFormed ls
    → Updates ls
        (λ t. (nat_beq s t && ltb t num_shards) || has_shard ls t)
        (ignoring ls (set_shard ls (pos s)))
set_one ls s w = elim (dec_lt s num_shards) [
  | yes h ↦
      let u = set_shard-Updates ls s w h in
      record {
        result = u.result;
        returned = rw u.returned;
        well_formed = u.well_formed;
        bits = λ t. ground (arith, u.bits t, h);
        same_length = u.same_length;
      }
  | no h ↦ record {
    result = ls;
    returned = rw (large_id-refused ls s (omega arith)).0;
    well_formed = w;
    bits = λ t. ground (arith, h);
    same_length = refl;
  }
]

Updates-append :
    {ls : ListeningShards} {p q : ℕ → Bool} {r r' : Outcome ListeningShards} (u : Updates ls p r)
    → Updates u.result q r'
    → (after : ℕ → Bool) → ((t : ℕ) → q t ≡ after t)
    → Updates ls after r'
Updates-append u v after h = record {
  result = v.result;
  returned = v.returned;
  well_formed = v.well_formed;
  bits = λ t. v.bits t ∙ h t;
  same_length = v.same_length ∙ u.same_length;
}

-- Reading a slice into a string sets the shards in range that it names; IDs from 100 on are skipped.
pub from_slice-Updates :
    (ls : ListeningShards) (ids : List ℤ)
    → IsWellFormed ls
    → All IsNonNegative ids
    → Updates ls (λ t. named ids t || has_shard ls t) (from_slice ls ids)
unfolding from_slice
from_slice-Updates ls [] w h = record {
  result = ls;
  returned = refl;
  well_formed = w;
  bits = λ t. unfold contains in ground arith;
  same_length = refl;
}
from_slice-Updates ls (negsuc s ∷ ids) w h = absurd h.0
from_slice-Updates ls (pos s ∷ ids) w h =
    let u = set_one ls s w in
    let v = from_slice-Updates u.result ids u.well_formed h.1 in
    rw u.returned (Updates-append u v _ (λ t. unfold contains in ground (arith, u.bits t)))

-- For a list of IDs that are not negative, reading it into a new set and listing the set returns
-- each shard below 100 that the list names, once, in ascending order.
pub get_shards-from_slice :
    (ids : List ℤ)
    → All IsNonNegative ids
    → (from_slice new_listening_shards ids >>= get_shards) ≡ ok (shard_list (named ids))
get_shards-from_slice ids h =
    let u = from_slice-Updates new_listening_shards ids new_listening_shards-IsWellFormed h in
    rw u.returned (
      get_shards_lem u.result u.well_formed
      ∙ ap ok (
          shard_list-ext (has_shard u.result) (named ids)
            (λ n lt. ground (arith, u.bits n, has_shard-new n))))

range-NonNegative :
    (p : ℕ → Bool) (k s : ℕ) → All IsNonNegative (map pos (keep_if p (range_from k s)))
range-NonNegative p zero s = tt
range-NonNegative p (suc k) s = elim (Bool-cases (p s)) [
  | inl e ↦ rw e (tt, range-NonNegative p k (suc s))
  | inr e ↦ rw e (range-NonNegative p k (suc s))
]

IsNonNegative-shard_list : (p : ℕ → Bool) → All IsNonNegative (shard_list p)
unfolding shard_list
IsNonNegative-shard_list p = range-NonNegative p num_shards 0

-- The list of a well-formed set, read into a new set, gives a set with the same list.
pub from_slice-get_shards :
    (ls : ListeningShards)
    → IsWellFormed ls
    → (do ids ← get_shards ls; ls' ← from_slice new_listening_shards ids; get_shards ls')
      ≡ get_shards ls
from_slice-get_shards ls w = rw (get_shards_lem ls w) (
    get_shards-from_slice (shard_list (has_shard ls)) (IsNonNegative-shard_list (has_shard ls))
    ∙ ap ok (
        shard_list-ext (named (shard_list (has_shard ls))) (has_shard ls)
          (λ n lt. ground (arith, contains-shard_list (has_shard ls) n))))
