-- ===== src/PrefTable.antt =====
-- shardpreftable.go, lines 99 to 192: what each peer listens to. A call here runs on its own, under
-- the table's lock; the entries are values, since each `*ListeningShards` stands in one entry only: the
-- child Store has the pointers. A peer ID is a byte string.
pub mod View
pub mod Ops
pub mod Peers
pub mod Store
pub mod Order
use sharding_p2p_poc.Prelude.{
  ℤ, Bytes, bytes_eq, Bool, true, false, not, List, [], ◌∷◌, ◌++◌, Option, none, some,
  if◌then◌else◌,
}
use sharding_p2p_poc.Prelude.Assoc.{Assoc, lookup, insert, has_key}
use sharding_p2p_poc.Outcome.{Outcome, ok, fail, panic, ◌>>=◌}
use sharding_p2p_poc.Shards.{
  ListeningShards, new_listening_shards, is_shard_set, set_shard, unset_shard, get_shards,
}

pub record ShardPrefTable : Type 0 where
  pub shard_pref_map : Assoc Bytes ListeningShards

unfoldable pub new_shard_pref_table : ShardPrefTable
new_shard_pref_table = record { shard_pref_map = [] }

unfoldable pub is_peer_recorded : ShardPrefTable → Bytes → Bool
is_peer_recorded n peer_id = has_key peer_id n.shard_pref_map

-- A use of the pointer that the map holds; a missing key gives a nil pointer.
abbrev entry : ShardPrefTable → Bytes → Outcome ListeningShards
entry n peer_id = elim (lookup peer_id n.shard_pref_map) [ none ↦ panic | some ls ↦ ok ls ]

unfoldable pub is_peer_listening_shard : ShardPrefTable → Bytes → ℤ → Outcome Bool
unfolding is_peer_recorded
is_peer_listening_shard n peer_id shard_id =
    if not (is_peer_recorded n peer_id)
    then ok false
    else do shard_pref ← entry n peer_id; is_shard_set shard_pref shard_id

-- The entry of the peer, or a new one.
abbrev pub entry_or_new : ShardPrefTable → Bytes → ListeningShards
entry_or_new n peer_id = elim (lookup peer_id n.shard_pref_map) [
  | none ↦ new_listening_shards
  | some ls ↦ ls
]

-- A failure leaves the table as it was.
unfoldable pub add_peer_listening_shard : ShardPrefTable → Bytes → ℤ → Outcome ShardPrefTable
add_peer_listening_shard n peer_id shard_id = do
  shard_pref ← set_shard (entry_or_new n peer_id) shard_id
  ok (record { shard_pref_map = insert peer_id shard_pref n.shard_pref_map })

unfoldable pub remove_peer_listening_shard : ShardPrefTable → Bytes → ℤ → Outcome ShardPrefTable
unfolding is_peer_recorded
remove_peer_listening_shard n peer_id shard_id =
    if not (is_peer_recorded n peer_id) then ok n else do
      listening ← is_peer_listening_shard n peer_id shard_id
      if not listening then ok n else do
        shard_pref ← entry n peer_id
        shard_pref' ← unset_shard shard_pref shard_id
        ok (record { shard_pref_map = insert peer_id shard_pref' n.shard_pref_map })

unfoldable pub get_peer_listening_shard : ShardPrefTable → Bytes → Outcome ListeningShards
unfolding is_peer_recorded
get_peer_listening_shard n peer_id =
    if not (is_peer_recorded n peer_id) then ok new_listening_shards else entry n peer_id

unfoldable pub get_peer_listening_shard_slice : ShardPrefTable → Bytes → Outcome (List ℤ)
unfolding is_peer_recorded
get_peer_listening_shard_slice n peer_id =
    if not (is_peer_recorded n peer_id)
    then ok []
    else do shard_pref ← entry n peer_id; get_shards shard_pref

unfoldable pub set_peer_listening_shard : ShardPrefTable → Bytes → ListeningShards → ShardPrefTable
set_peer_listening_shard n peer_id ls = record {
  shard_pref_map = insert peer_id ls n.shard_pref_map;
}

-- The loop over the map, with the peers found so far.
unfoldable pub peers_loop : ℤ → Assoc Bytes ListeningShards → List Bytes → Outcome (List Bytes)
peers_loop shard_id [] peers = ok peers
peers_loop shard_id ((peer_id, ls) ∷ rest) peers = do
  listening ← is_shard_set ls shard_id
  peers_loop shard_id rest (if listening then peers ++ peer_id ∷ [] else peers)

unfoldable pub get_peers_in_shard : ShardPrefTable → ℤ → Outcome (List Bytes)
unfolding peers_loop
get_peers_in_shard n shard_id = peers_loop shard_id n.shard_pref_map []
