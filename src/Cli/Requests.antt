-- ===== src/Cli/Requests.antt =====
-- What the client sends for arguments that print numbers.
use sharding_p2p_poc.Prelude.{
  ℕ, ◌<◌, ◌^◌, ℤ, pos, bytes_eq, bytes_beq, codes, ◌≡◌, refl, arith, List, [], ◌∷◌, map, All,
  IsInt64,
}
use sharding_p2p_poc.Outcome.{ok}
use sharding_p2p_poc.Text.{format_int, format_uint}
use sharding_p2p_poc.Text.Decimal.{parse_uint-format_uint, parse_int-format_int}
use sharding_p2p_poc.Messages.{Codecs}
use sharding_p2p_poc.Cli.{
  discover_shard, subscribe_shard, unsubscribe_shard, list_shard_peer, parse_shard_ids, do_discover,
  do_sub_shard, do_unsub_shard, do_list_shard_peer, run_client,
}

parse_shard_ids-format_int :
    (ids : List ℤ) → All IsInt64 ids → parse_shard_ids (map format_int ids) ≡ ok ids
unfolding parse_shard_ids
parse_shard_ids-format_int [] h = refl
parse_shard_ids-format_int (z ∷ ids) h =
    rw (parse_int-format_int z h.0, parse_shard_ids-format_int ids h.1)

module _ (codecs : Codecs) where
  -- For a number below 2 ^ 63 and at least one int64 ID, all printed in decimal: the commands
  -- subshard and unsubshard choose the calls with these numbers, and discovershard and
  -- listshardpeer the ones with these IDs.
  pub run_client-shards :
      (num : ℕ) (id : ℤ) (ids : List ℤ)
      → num < 2 ^ 63
      → All IsInt64 (id ∷ ids)
      → (run_client codecs (codes "subshard" ∷ format_uint num ∷ map format_int (id ∷ ids))
          ≡ ok (subscribe_shard (pos num) (id ∷ ids)))
        × (run_client codecs (codes "unsubshard" ∷ map format_int (id ∷ ids))
            ≡ ok (unsubscribe_shard (id ∷ ids)))
        × (run_client codecs (codes "discovershard" ∷ map format_int (id ∷ ids))
            ≡ ok (discover_shard (id ∷ ids)))
        × (run_client codecs (codes "listshardpeer" ∷ map format_int (id ∷ ids))
            ≡ ok (list_shard_peer (id ∷ ids)))
  unfolding run_client do_discover do_sub_shard do_unsub_shard do_list_shard_peer bytes_beq
  run_client-shards num id ids lt h =
      let e = parse_shard_ids-format_int (id ∷ ids) h in
      (rw (parse_uint-format_uint num (omega arith), e) (ground arith), rw e, rw e, rw e)
