-- ===== src/Cli.antt =====
-- cli.go, and lines 103 to 140 of main.go: the client, from its arguments to the call of the server
-- that the command chooses. A call of Fatal ends the process.
pub mod Requests
pub mod Calls
pub mod Sessions
pub mod Searches
pub mod Stopping
pub mod Total
use sharding_p2p_poc.Prelude.{
  ℕ, ◌-◌, ◌^◌, ℤ, pos, negsuc, Bytes, bytes_eq, ◌==◌, codes, Bool, true, false, List, [], ◌∷◌, ltb,
  if◌then◌else◌, map,
}
use sharding_p2p_poc.Prelude.Assoc.{Assoc, insert}
use sharding_p2p_poc.Outcome.{Outcome, ok, fail, panic, ◌>>=◌}
use sharding_p2p_poc.Text.{parse_int, parse_uint, get_collations_topic, shard_topic_to_shard_id}
use sharding_p2p_poc.Messages.{Codecs, Peers}
use sharding_p2p_poc.Peers.{string_to_peer_id, peer_id_to_string}

-- The calls callRPC…, each with its arguments
pub data Request : Type 0 where
  identify : Request
  add_peer : (ip : Bytes) (port seed : ℤ) → Request
  discover_shard : (shards : List ℤ) → Request
  subscribe_shard : (num_shard_peer_to_connect : ℤ) (shard_ids : List ℤ) → Request
  unsubscribe_shard : (shard_ids : List ℤ) → Request
  get_subscribed_shard : Request
  broadcast_collation : (shard_id number size period : ℤ) → Request
  stop_server : Request
  list_peer : Request
  list_topic_peer : (topics : List Bytes) → Request
  list_shard_peer : (shards : List ℤ) → Request
  remove_peer : (peer_id : Bytes) → Request
  bootstrap : (flag : Bool) (bootnodes_str : Bytes) → Request

-- `if err != nil { logger.Fatalf(…) }`
abbrev pub or_fatal {ℓ} : {A : Type ℓ} → Outcome A → Outcome A
or_fatal (ok a) = ok a
or_fatal (fail e) = panic
or_fatal panic = panic

-- PBInt of a uint64 wraps.
abbrev pub pb_int : ℕ → ℤ
pb_int n = if ltb n (2 ^ 63) then pos n else negsuc (2 ^ 64 - 1 - n)

-- The loops that read shard IDs
unfoldable pub parse_shard_ids : List Bytes → Outcome (List ℤ)
parse_shard_ids [] = ok []
parse_shard_ids (arg ∷ args) = do
  shard_id ← or_fatal (parse_int arg)
  shard_ids ← parse_shard_ids args
  ok (shard_id ∷ shard_ids)

unfoldable pub do_add_peer : List Bytes → Outcome Request
do_add_peer (ip ∷ port_str ∷ seed_str ∷ []) = do
  port ← or_fatal (parse_int port_str)
  seed ← or_fatal (parse_int seed_str)
  ok (add_peer ip port seed)
do_add_peer _ = panic

unfoldable pub do_discover : List Bytes → Outcome Request
do_discover args = do shard_ids ← parse_shard_ids args; ok (discover_shard shard_ids)

unfoldable pub do_sub_shard : List Bytes → Outcome Request
do_sub_shard (num_str ∷ arg ∷ args) = do
  num ← or_fatal (parse_uint num_str)
  shard_ids ← parse_shard_ids (arg ∷ args)
  ok (subscribe_shard (pb_int num) shard_ids)
do_sub_shard _ = panic

unfoldable pub do_unsub_shard : List Bytes → Outcome Request
do_unsub_shard [] = panic
do_unsub_shard (arg ∷ args) = do
  shard_ids ← parse_shard_ids (arg ∷ args)
  ok (unsubscribe_shard shard_ids)

unfoldable pub do_broadcast_collation : List Bytes → Outcome Request
do_broadcast_collation (shard_str ∷ num_str ∷ size_str ∷ time_str ∷ []) = do
  shard_id ← or_fatal (parse_int shard_str)
  num_collations ← or_fatal (parse_int num_str)
  collation_size ← or_fatal (parse_int size_str)
  time_in_ms ← or_fatal (parse_int time_str)
  ok (broadcast_collation shard_id num_collations collation_size time_in_ms)
do_broadcast_collation _ = panic

unfoldable pub do_list_shard_peer : List Bytes → Outcome Request
do_list_shard_peer args = do shard_ids ← parse_shard_ids args; ok (list_shard_peer shard_ids)

unfoldable pub do_bootstrap : List Bytes → Outcome Request
do_bootstrap (flag ∷ []) =
    if flag == codes "start"
    then ok (bootstrap true [])
    else if flag == codes "stop"
    then ok (bootstrap false [])
    else panic
do_bootstrap (flag ∷ bootnodes_str ∷ []) =
    if flag == codes "start"
    then ok (bootstrap true bootnodes_str)
    else if flag == codes "stop"
    then ok (bootstrap false [])
    else panic
do_bootstrap _ = panic

module _ (codecs : Codecs) where
  unfoldable pub do_remove_peer : List Bytes → Outcome Request
  do_remove_peer (peer_id_str ∷ []) = do
    peer_id ← or_fatal (string_to_peer_id codecs peer_id_str)
    ok (remove_peer peer_id)
  do_remove_peer _ = panic

  unfoldable pub run_client : List Bytes → Outcome Request
  run_client [] = panic
  run_client (cmd ∷ args) =
      if cmd == codes "identify"
      then ok identify
      else if cmd == codes "addpeer"
      then do_add_peer args
      else if cmd == codes "discovershard"
      then do_discover args
      else if cmd == codes "subshard"
      then do_sub_shard args
      else if cmd == codes "unsubshard"
      then do_unsub_shard args
      else if cmd == codes "getsubshard"
      then ok get_subscribed_shard
      else if cmd == codes "broadcastcollation"
      then do_broadcast_collation args
      else if cmd == codes "stop"
      then ok stop_server
      else if cmd == codes "listpeer"
      then ok list_peer
      else if cmd == codes "listtopicpeer"
      then ok (list_topic_peer args)
      else if cmd == codes "listshardpeer"
      then do_list_shard_peer args
      else if cmd == codes "removepeer"
      then do_remove_peer args
      else if cmd == codes "bootstrap"
      then do_bootstrap args
      else panic

-- The loop of callRPCDiscover and callRPCListShardPeer over the answer: what is printed for a shard
unfoldable pub shard_peers_loop :
    Assoc Bytes Peers → Assoc Bytes (List Bytes) → Assoc Bytes (List Bytes)
shard_peers_loop [] shard_peers = shard_peers
shard_peers_loop ((topic, peers) ∷ rest) shard_peers =
    shard_peers_loop rest (insert (shard_topic_to_shard_id topic) peers.peers shard_peers)
