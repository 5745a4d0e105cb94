-- ===== src/Tests/Shards.antt =====
-- shardpreftable.go, lines 10 to 97: runs of the shard sets.
use sharding_p2p_poc.Prelude.{pos, negsuc, ◌≡◌, refl, arith, [], ◌∷◌}
use sharding_p2p_poc.Outcome.{ok, panic, ◌>>=◌}
use sharding_p2p_poc.Shards.{
  new_listening_shards, is_shard_set, get_shards, from_slice, shard_id_to_bit_index,
}
use sharding_p2p_poc.Shards.View.Listing.{shard_list}
use sharding_p2p_poc.Shards.View.Slices.{named, get_shards-from_slice}
use sharding_p2p_poc.Shards.Bounds.{is_shard_set-negative}
use sharding_p2p_poc.Fixtures.{some_shards}

get_shards_some : get_shards some_shards ≡ ok (pos 0 ∷ pos 5 ∷ pos 42 ∷ [])
unfolding get_shards shard_id_to_bit_index
get_shards_some = refl

get_shards-from_slice_example :
    (from_slice new_listening_shards (pos 42 ∷ pos 7 ∷ pos 42 ∷ pos 100 ∷ []) >>= get_shards)
    ≡ ok (shard_list (named (pos 42 ∷ pos 7 ∷ pos 42 ∷ pos 100 ∷ [])))
get_shards-from_slice_example =
    get_shards-from_slice (pos 42 ∷ pos 7 ∷ pos 42 ∷ pos 100 ∷ []) (omega arith)

is_shard_set-negative_example : is_shard_set some_shards (negsuc 7) ≡ panic
is_shard_set-negative_example = is_shard_set-negative some_shards 7 refl (omega arith) (omega arith)
