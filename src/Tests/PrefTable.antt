-- ===== src/Tests/PrefTable.antt =====
-- shardpreftable.go, lines 99 to 192: runs of the preference table.
use sharding_p2p_poc.Prelude.{
  pos, Bytes, bytes_eq, bytes_beq, ◌≡◌, refl, arith, not, ◌&&◌, ◌||◌, ℕ, contains, nat_beq_iff,
  List, [], ◌∷◌,
}
use sharding_p2p_poc.Prelude.Assoc.{insert}
use sharding_p2p_poc.Outcome.{ok, panic}
use sharding_p2p_poc.Shards.{from_bytes, is_shard_set, shard_id_to_bit_index}
use sharding_p2p_poc.PrefTable.{
  ShardPrefTable, new_shard_pref_table, set_peer_listening_shard, get_peers_in_shard,
}
use sharding_p2p_poc.PrefTable.View.{listens, IsTable}
use sharding_p2p_poc.PrefTable.Ops.{
  set_peer_listening_shard-IsTable, new_shard_pref_table-IsTable, listens-set_peer_listening_shard,
}
use sharding_p2p_poc.PrefTable.Peers.{get_peers_in_shard_lem, short_announcement}
use mathlib.Core.Quot
use sharding_p2p_poc.PrefTable.Order.{
  Peers, peers_of, Preferences, table_of, showing, Update, is_added, is_removed, listens_in, adds,
  removes, updates, updates-any_order, get_peers_in_shard-any_order,
}
use sharding_p2p_poc.Fixtures.{
  some_shards-IsWellFormed, table, table-IsTable, alice, bob, host, some_shards,
}

peers_in_42 : get_peers_in_shard table (pos 42) ≡ ok (alice ∷ host ∷ [])
unfolding get_peers_in_shard set_peer_listening_shard new_shard_pref_table insert bytes_beq
    is_shard_set shard_id_to_bit_index
peers_in_42 = refl

get_peers_in_shard_lem_example :
    (peers : List Bytes) × (get_peers_in_shard table (pos 42) ≡ ok peers)
    × ((q : Bytes) → contains peers q ≡ listens table q 42)
get_peers_in_shard_lem_example = get_peers_in_shard_lem table 42 table-IsTable (omega arith)

-- The same two peers, entered in the other order
abbrev other_table : ShardPrefTable
other_table =
    set_peer_listening_shard (set_peer_listening_shard new_shard_pref_table host some_shards) alice
      some_shards

other_table-IsTable : IsTable other_table
other_table-IsTable =
    set_peer_listening_shard-IsTable _ alice
      (set_peer_listening_shard-IsTable new_shard_pref_table host new_shard_pref_table-IsTable
        some_shards some_shards-IsWellFormed)
      some_shards some_shards-IsWellFormed

same_tables : table_of table ≡ table_of other_table
same_tables = Quot.sound λ p t. ground (
  arith,
  listens-set_peer_listening_shard new_shard_pref_table alice some_shards p t,
  listens-set_peer_listening_shard new_shard_pref_table host some_shards p t,
  listens-set_peer_listening_shard (set_peer_listening_shard new_shard_pref_table alice some_shards)
      host some_shards p t,
  listens-set_peer_listening_shard (set_peer_listening_shard new_shard_pref_table host some_shards)
      alice some_shards p t,
)

get_peers_in_shard-any_order_example :
    (peers : Peers) × (showing peers_of (get_peers_in_shard table (pos 42)) ≡ ok peers)
    × (showing peers_of (get_peers_in_shard other_table (pos 42)) ≡ ok peers)
get_peers_in_shard-any_order_example =
    get_peers_in_shard-any_order table other_table 42 table-IsTable other_table-IsTable
      (omega arith) same_tables

abbrev two_updates : List Update
two_updates = adds bob 42 ∷ removes alice 5 ∷ []

abbrev three_updates : List Update
three_updates = removes alice 5 ∷ adds bob 42 ∷ adds bob 42 ∷ []

updates-any_order_example :
    (x : Preferences) × (showing table_of (updates two_updates table) ≡ ok x)
    × (showing table_of (updates three_updates table) ≡ ok x)
    × ((p : Bytes) (t : ℕ)
        → listens_in x p t
          ≡ (is_added two_updates p t || (not (is_removed two_updates p t) && listens table p t)))
updates-any_order_example =
    updates-any_order table two_updates three_updates table-IsTable (omega arith) (omega arith)
      (λ p t. ground (arith, nat_beq_iff 42 t, nat_beq_iff 5 t)) (λ p t. ground arith)
      (λ p t. ground arith)

short_announcement_example :
    get_peers_in_shard
      (set_peer_listening_shard table bob (from_bytes some_shards (255 ∷ [])))
      (pos 8)
    ≡ panic
short_announcement_example =
    short_announcement table bob (255 ∷ []) some_shards 8 (omega arith) (omega arith)
