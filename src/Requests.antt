-- ===== src/Requests.antt =====
-- requests.go: the two request protocols. Streams are a parameter: `encode` and `decode` are the
-- multicodec's, on the marshalled message.
pub mod Answers
pub mod Wire
pub mod Exchange
use sharding_p2p_poc.Prelude.{ℤ, Bytes, int_eq, codes, List, [], ◌∷◌, Option, none, some}
use sharding_p2p_poc.Prelude.Assoc.{Assoc, insert}
use sharding_p2p_poc.Outcome
use sharding_p2p_poc.Outcome.{Outcome, ok, fail, panic, Error, message, wrapped}
use sharding_p2p_poc.Exec.{Exec, pure, lift, gets, attempt, wrapping, ◌>>=◌, ◌>>◌}
use sharding_p2p_poc.Messages.{
  Codecs, Codec, Peers, Response, success, ShardPeerRequest, ShardPeerResponse, GeneralRequest,
  GeneralResponse,
}
use sharding_p2p_poc.Peers.{pb_peers_to_peer_ids, peer_ids_to_pb_peers}
use sharding_p2p_poc.PrefTable.{ShardPrefTable, get_peers_in_shard}
use sharding_p2p_poc.Notifier.{EventNotifier}
use sharding_p2p_poc.Network.{Network}
use sharding_p2p_poc.State.{Node, external, effect}

abbrev pub shard_peer_request_protocol : Bytes
shard_peer_request_protocol = codes "/shardPeerRequest/1.0.0"

abbrev pub general_request_protocol : Bytes
general_request_protocol = codes "/generalRequest/1.0.0"

pub record Streams (W : Type 0) : Type 1 where
  pub Stream : Type 0
  pub new_stream : Bytes → Bytes → W → Outcome Stream × W
  pub encode : Stream → Bytes → W → Outcome (Unit {0}) × W
  pub flush : Stream → W → Outcome (Unit {0}) × W
  pub decode : Stream → W → Outcome Bytes × W
  -- inet.FullClose, and Close
  pub full_close : Stream → W → W
  pub close : Stream → W → W
  pub remote_peer : Stream → Bytes

-- The loop of onShardPeerRequest over the requested shards.
unfoldable pub collect_peers :
    Codecs → ShardPrefTable → List ℤ → Assoc ℤ Peers → Outcome (Assoc ℤ Peers)
collect_peers codecs table [] shard_peers = ok shard_peers
collect_peers codecs table (shard_id ∷ shard_ids) shard_peers =
    Outcome.◌>>=◌ (get_peers_in_shard table shard_id) λ peer_ids.
      collect_peers codecs table shard_ids
        (insert shard_id (peer_ids_to_pb_peers codecs peer_ids) shard_peers)

-- The loop of requestShardPeer over the received map.
unfoldable pub read_peers :
    Codecs → Assoc ℤ Peers → Assoc ℤ (List Bytes) → Outcome (Assoc ℤ (List Bytes))
read_peers codecs [] shard_peers = ok shard_peers
read_peers codecs ((shard_id, peers) ∷ rest) shard_peers =
    Outcome.◌>>=◌
      (Outcome.wrap (wrapped "Failed to convert peer ID from PB string to peerID format, err: ")
        (pb_peers_to_peer_ids codecs peers))
      λ peer_ids. read_peers codecs rest (insert shard_id peer_ids shard_peers)

module _ (net : Network) (streams : Streams net.World) (codecs : Codecs) where
  open streams use {Stream, new_stream, encode, flush, decode, full_close, close, remote_peer}

  unfoldable pub read_proto_message : {A : Type 0} → Codec A → Stream → Exec (Node net) A
  read_proto_message codec s = do bytes ← external net (decode s); lift (codec.unmarshal bytes)

  -- The outcome of Flush is dropped.
  unfoldable pub send_proto_message :
      {A : Type 0} → Codec A → A → Stream → Exec (Node net) (Unit {0})
  send_proto_message codec msg s = do
    bytes ← lift (codec.marshal msg)
    external net (encode s bytes)
    _ ← attempt (external net (flush s))
    pure tt

  -- `defer`: the last call is made on a return and on an error.
  abbrev deferring : {A : Type 0} → (net.World → net.World) → Exec (Node net) A → Exec (Node net) A
  deferring last m n = ((m n).0, record (m n).1 { world = last (m n).1.world })

  -- The answer to a request that was read; an error of the sending is logged only.
  unfoldable pub answer_shard_peers : Stream → ShardPeerRequest → Exec (Node net) (Unit {0})
  answer_shard_peers s req = do
    table ← gets (λ n. n.shard_pref_table)
    shard_peers ← lift (collect_peers codecs table req.shard_ids [])
    _ ← attempt (
        send_proto_message codecs.shard_peer_response
          (record { response = some (record { status = success }); shard_peers = shard_peers }) s)
    pure tt

  -- A handler that cannot read its request returns.
  abbrev handle :
      {A : Type 0}
      → Codec A
      → Stream
      → (A → Exec (Node net) (Unit {0}))
      → Exec (Node net) (Unit {0})
  handle codec s answer =
      deferring (full_close s) (returning (read_proto_message codec s >>= answer))
    where
      returning : Exec (Node net) (Unit {0}) → Exec (Node net) (Unit {0})
      returning m = attempt m >>= λ _. pure tt

  unfoldable pub on_shard_peer_request : Stream → Exec (Node net) (Unit {0})
  on_shard_peer_request s = handle codecs.shard_peer_request s (answer_shard_peers s)

  unfoldable pub request_shard_peer : Bytes → List ℤ → Exec (Node net) (Assoc ℤ (List Bytes))
  request_shard_peer peer_id shard_ids = do
    s ←
        wrapping (λ e. message "failed to open new stream")
          (external net (new_stream peer_id shard_peer_request_protocol))
    deferring (close s) do
      wrapping (wrapped "failed to send request: ")
          (send_proto_message codecs.shard_peer_request (record { shard_ids = shard_ids }) s)
      res ←
          wrapping (λ e. message "failed to read response proto")
            (read_proto_message codecs.shard_peer_response s)
      lift (read_peers codecs res.shard_peers [])

  module _ (notifier : EventNotifier (Node net)) where
    unfoldable pub answer_general : Stream → GeneralRequest → Exec (Node net) (Unit {0})
    answer_general s req = do
      data_bytes ← notifier.receive (remote_peer s) req.msg_type req.body
      send_proto_message codecs.general_response (record { body = data_bytes }) s

    unfoldable pub on_general_request : Stream → Exec (Node net) (Unit {0})
    on_general_request s = handle codecs.general_request s (answer_general s)

  unfoldable pub general_request : Bytes → ℤ → Bytes → Exec (Node net) Bytes
  general_request peer_id msg_type body = do
    s ←
        wrapping (wrapped "failed to open new stream ")
          (external net (new_stream peer_id general_request_protocol))
    wrapping (wrapped "failed to send request: ")
        (send_proto_message codecs.general_request (record { msg_type = msg_type; body = body }) s)
    resp ←
        wrapping (λ e. message "failed to read response proto")
          (read_proto_message codecs.general_response s)
    pure resp.body
