-- ===== src/Cli/Calls.antt =====
-- cli.go, lines 168 to 473: the calls of the server, from the connection to what is printed. A
-- failure ends the process.
use sharding_p2p_poc.Prelude.{ℤ, Bytes, bytes_eq, Bool, List, [], ◌∷◌, map, Option, none, some}
use sharding_p2p_poc.Prelude.Assoc.{Assoc, insert}
use sharding_p2p_poc.Outcome
use sharding_p2p_poc.Outcome.{Outcome, ok}
use sharding_p2p_poc.Exec.{Exec, pure, lift, ◌>>=◌, ◌>>◌}
use sharding_p2p_poc.Messages.{Codecs, Peers}
use sharding_p2p_poc.Text.{get_collations_topic}
use sharding_p2p_poc.Peers.{peer_id_to_string}
use sharding_p2p_poc.Rpc.{Dial}
use sharding_p2p_poc.Cli
use sharding_p2p_poc.Cli.{Request, or_fatal, shard_peers_loop, run_client}

-- What is marshalled to JSON: an answer to Identify, IDs of shards, texts of peers, and lists of
-- them under the texts of shards or topics
pub data Data : Type 0 where
  identity : Bytes × List Bytes → Data
  shard_ids : List ℤ → Data
  peers : List Bytes → Data
  peer_lists : Assoc Bytes (List Bytes) → Data

-- json.Marshal
abbrev pub Json : Type 0
Json = Data → Outcome Bytes

abbrev pub or_end : {S A : Type 0} → Exec S A → Exec S A
or_end m s = (or_fatal (m s).0, (m s).1)

-- The loop of callRPCListTopicPeer over the answer
unfoldable pub topic_peers_loop :
    Assoc Bytes Peers → Assoc Bytes (List Bytes) → Assoc Bytes (List Bytes)
topic_peers_loop [] topic_peers = topic_peers
topic_peers_loop ((topic, found) ∷ rest) topic_peers =
    topic_peers_loop rest (insert topic found.peers topic_peers)

module _ (json : Json) where
  unfoldable pub marshal_to_json_string : Data → Outcome Bytes
  marshal_to_json_string value = or_fatal (json value)

  abbrev pub printed : Data → Outcome (Option Bytes)
  printed value = Outcome.◌>>=◌ (marshal_to_json_string value) λ line. ok (some line)

  module _ {S : Type 0} (dial : Dial S) (rpc_addr : Bytes) where
    -- fmt.Println: the line is the result.
    abbrev println : Data → Exec S (Option Bytes)
    println value = lift (printed value)

    abbrev silent : Exec S (Option Bytes)
    silent = pure none

    unfoldable pub call_identify : Exec S (Option Bytes)
    call_identify = do
      client ← or_end (dial rpc_addr)
      res ← or_end client.identify
      println (identity res)

    unfoldable pub call_rpc_add_peer : Bytes → ℤ → ℤ → Exec S (Option Bytes)
    call_rpc_add_peer ip port seed = do
      client ← or_end (dial rpc_addr)
      or_end (client.add_peer ip port seed)
      silent

    unfoldable pub call_rpc_discover : List ℤ → Exec S (Option Bytes)
    call_rpc_discover shards = do
      client ← or_end (dial rpc_addr)
      topic_peers ← or_end (client.discover_shard (map get_collations_topic shards))
      println (peer_lists (shard_peers_loop topic_peers []))

    unfoldable pub call_rpc_subscribe_shard : ℤ → List ℤ → Exec S (Option Bytes)
    call_rpc_subscribe_shard num_shard_peer_to_connect ids = do
      client ← or_end (dial rpc_addr)
      or_end (client.subscribe_shard num_shard_peer_to_connect ids)
      silent

    unfoldable pub call_rpc_unsubscribe_shard : List ℤ → Exec S (Option Bytes)
    call_rpc_unsubscribe_shard ids = do
      client ← or_end (dial rpc_addr)
      or_end (client.unsubscribe_shard ids)
      silent

    unfoldable pub call_rpc_get_subscribed_shard : Exec S (Option Bytes)
    call_rpc_get_subscribed_shard = do
      client ← or_end (dial rpc_addr)
      ids ← or_end client.get_subscribed_shard
      println (shard_ids ids)

    unfoldable pub call_rpc_broadcast_collation : ℤ → ℤ → ℤ → ℤ → Exec S (Option Bytes)
    call_rpc_broadcast_collation shard_id num_collations collation_size period = do
      client ← or_end (dial rpc_addr)
      or_end (client.broadcast_collation shard_id num_collations collation_size period)
      silent

    unfoldable pub call_rpc_stop_server : Exec S (Option Bytes)
    call_rpc_stop_server = do client ← or_end (dial rpc_addr); or_end client.stop_server; silent

    unfoldable pub call_rpc_list_peer : Exec S (Option Bytes)
    call_rpc_list_peer = do
      client ← or_end (dial rpc_addr)
      found ← or_end client.list_peer
      println (peers found)

    unfoldable pub call_rpc_list_topic_peer : List Bytes → Exec S (Option Bytes)
    call_rpc_list_topic_peer topics = do
      client ← or_end (dial rpc_addr)
      topic_peers ← or_end (client.list_topic_peer topics)
      println (peer_lists (topic_peers_loop topic_peers []))

    unfoldable pub call_rpc_list_shard_peer : List ℤ → Exec S (Option Bytes)
    call_rpc_list_shard_peer shards = do
      client ← or_end (dial rpc_addr)
      topic_peers ← or_end (client.list_topic_peer (map get_collations_topic shards))
      println (peer_lists (shard_peers_loop topic_peers []))

    unfoldable pub call_rpc_remove_peer : Codecs → Bytes → Exec S (Option Bytes)
    call_rpc_remove_peer codecs peer_id = do
      client ← or_end (dial rpc_addr)
      or_end (client.remove_peer (peer_id_to_string codecs peer_id))
      silent

    unfoldable pub call_rpc_bootstrap : Bool → Bytes → Exec S (Option Bytes)
    call_rpc_bootstrap flag bootnodes_str = do
      client ← or_end (dial rpc_addr)
      or_end (client.bootstrap flag bootnodes_str)
      silent

    -- The call that a command has chosen
    abbrev pub call_rpc : Codecs → Request → Exec S (Option Bytes)
    call_rpc codecs Cli.identify = call_identify
    call_rpc codecs (Cli.add_peer ip port seed) = call_rpc_add_peer ip port seed
    call_rpc codecs (Cli.discover_shard shards) = call_rpc_discover shards
    call_rpc codecs (Cli.subscribe_shard num ids) = call_rpc_subscribe_shard num ids
    call_rpc codecs (Cli.unsubscribe_shard ids) = call_rpc_unsubscribe_shard ids
    call_rpc codecs Cli.get_subscribed_shard = call_rpc_get_subscribed_shard
    call_rpc codecs (Cli.broadcast_collation id number size period) =
        call_rpc_broadcast_collation id number size period
    call_rpc codecs Cli.stop_server = call_rpc_stop_server
    call_rpc codecs Cli.list_peer = call_rpc_list_peer
    call_rpc codecs (Cli.list_topic_peer topics) = call_rpc_list_topic_peer topics
    call_rpc codecs (Cli.list_shard_peer shards) = call_rpc_list_shard_peer shards
    call_rpc codecs (Cli.remove_peer peer_id) = call_rpc_remove_peer codecs peer_id
    call_rpc codecs (Cli.bootstrap flag bootnodes_str) = call_rpc_bootstrap flag bootnodes_str

    -- A run of the client: its arguments, and the call
    unfoldable pub client : Codecs → List Bytes → Exec S (Option Bytes)
    client codecs args = do request ← lift (run_client codecs args); call_rpc codecs request
