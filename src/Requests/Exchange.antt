-- ===== src/Requests/Exchange.antt =====
-- requests.go, lines 60 to 203: both ends of a request, over a stream between two nodes.
use sharding_p2p_poc.Prelude.{
  ℕ, nat_eq, ◌<◌, ℤ, pos, int_eq, Bytes, bytes_eq, ◌≡◌, ◌∙◌, ap, List, map, none, some, contains,
  All, if◌then◌else◌, [],
}
use sharding_p2p_poc.Prelude.Assoc.{Assoc, lookup}
use sharding_p2p_poc.Outcome.{ok}
use sharding_p2p_poc.Messages.{
  Codecs, Peers, RoundTrips, ShardPeerRequest, ShardPeerResponse, GeneralRequest, success,
}
use sharding_p2p_poc.Peers.{PrettyDecodes}
use sharding_p2p_poc.Shards.{num_shards}
use sharding_p2p_poc.PrefTable.View.{listens, IsTable}
use sharding_p2p_poc.Notifier.{EventNotifier}
use sharding_p2p_poc.Network.{Network}
use sharding_p2p_poc.State.{Node}
use sharding_p2p_poc.Requests.{
  Streams, collect_peers, answer_shard_peers, on_shard_peer_request, request_shard_peer,
  answer_general, on_general_request, general_request, shard_peer_request_protocol,
  general_request_protocol,
}
use sharding_p2p_poc.Requests.Answers.{shard_peer_exchange}
use sharding_p2p_poc.Requests.Wire.{Carries, send_proto_message-sends, read_proto_message-reads}

abbrev pub peers_request : List ℕ → ShardPeerRequest
peers_request ids = record { shard_ids = map pos ids }

abbrev pub peers_response : Assoc ℤ Peers → ShardPeerResponse
peers_response sent = record { response = some (record { status = success }); shard_peers = sent }

module _ (net far : Network) (streams : Streams net.World) (far_streams : Streams far.World)
    (codecs : Codecs) (peer bytes : Bytes) (m : Node far) where
  module _
      (c : Carries net far streams far_streams peer shard_peer_request_protocol bytes m
        (on_shard_peer_request far far_streams codecs)) where
    -- What the handler writes
    handler_writes :
        (ids : List ℕ) (sent : Assoc ℤ Peers) (reply : Bytes)
        → codecs.shard_peer_request.unmarshal bytes ≡ ok (peers_request ids)
        → collect_peers codecs m.shard_pref_table (map pos ids) [] ≡ ok sent
        → codecs.shard_peer_response.marshal (peers_response sent) ≡ ok reply
        → c.written
            (on_shard_peer_request far far_streams codecs c.far_end
              (record m { world = c.arrived })).1.world
          ≡ reply
    unfolding on_shard_peer_request answer_shard_peers
    handler_writes ids sent reply read collected marshalled =
        let w = (far_streams.decode c.far_end c.arrived).1 in
        let e = far_streams.encode c.far_end reply w in
        rw
          (
            read_proto_message-reads far far_streams codecs codecs.shard_peer_request
                (peers_request ids) bytes c.far_end (record m { world = c.arrived }) c.arrives read,
            collected,
            send_proto_message-sends far far_streams codecs codecs.shard_peer_response
                (peers_response sent) reply c.far_end (record m { world = w }) marshalled
                (c.answers reply w).0 (c.far_flushes e.1).0,
          )
          (c.closes _ ∙ (c.far_flushes e.1).1 ∙ (c.answers reply w).1)

    -- For a stream that carries the request to a responder with a well-formed table and its answer
    -- back, messages that marshal and round-trip, peer IDs that decode from their texts, and
    -- requested shards below 100: requestShardPeer returns without an error a map that has a list
    -- for each requested shard and for no other, in which a peer stands exactly when the
    -- responder's table has it listen to the shard.
    pub request_shard_peer-answered :
        (n : Node net) (ids : List ℕ)
        → RoundTrips codecs.shard_peer_request
        → RoundTrips codecs.shard_peer_response
        → PrettyDecodes codecs
        → codecs.shard_peer_request.marshal (peers_request ids) ≡ ok bytes
        → ((sent : Assoc ℤ Peers)
            → collect_peers codecs m.shard_pref_table (map pos ids) [] ≡ ok sent
            → (reply : Bytes) × (codecs.shard_peer_response.marshal (peers_response sent)
                ≡ ok reply))
        → IsTable m.shard_pref_table
        → All (λ s. s < num_shards) ids
        → (received : Assoc ℤ (List Bytes)) × (found : ℕ → List Bytes) × ((request_shard_peer net
              streams codecs peer
              (map pos ids)
              n).0
            ≡ ok received)
          × ((s : ℕ) → lookup (pos s) received ≡ (if contains ids s then some (found s) else none))
          × ((s : ℕ) (q : Bytes) → contains (found s) q ≡ listens m.shard_pref_table q s)
    unfolding request_shard_peer
    request_shard_peer-answered n ids req_law res_law pretty marshalled replies w h =
        let (sent, received, found, collected, readable, keys, members) =
          shard_peer_exchange codecs m.shard_pref_table ids pretty w h in
        let (reply, replied) = replies sent collected in
        let (s, opened) = c.opens n.world in
        let w1 = (streams.new_stream peer shard_peer_request_protocol n.world).1 in
        let w2 = (streams.flush s (streams.encode s bytes w1).1).1 in
        let back =
          c.comes_back s w1
          ∙ ap ok (
              handler_writes ids sent reply (req_law (peers_request ids) bytes marshalled) collected
                replied) in
        (
          received,
          found,
          rw (
            opened,
            send_proto_message-sends net streams codecs codecs.shard_peer_request
                (peers_request ids) bytes s (record n { world = w1 }) marshalled (c.sends s w1)
                (c.flushes s _),
            read_proto_message-reads net streams codecs codecs.shard_peer_response
                (peers_response sent) reply s (record n { world = w2 }) back
                (res_law (peers_response sent) reply replied),
            readable,
          ),
          keys,
          members,
        )

  module _ (notifier : EventNotifier (Node far))
      (c : Carries net far streams far_streams peer general_request_protocol bytes m
        (on_general_request far far_streams codecs notifier)) where
    -- The state in which the responder's notifier is asked
    abbrev pub asked : Node far
    asked = record m { world = (far_streams.decode c.far_end c.arrived).1 }

    general_writes :
        (req : GeneralRequest) (data_bytes reply : Bytes)
        → codecs.general_request.unmarshal bytes ≡ ok req
        → (notifier.receive (far_streams.remote_peer c.far_end) req.msg_type req.body asked).0
          ≡ ok data_bytes
        → codecs.general_response.marshal (record { body = data_bytes }) ≡ ok reply
        → c.written
            (on_general_request far far_streams codecs notifier c.far_end
              (record m { world = c.arrived })).1.world
          ≡ reply
    unfolding on_general_request answer_general
    general_writes req data_bytes reply read judged marshalled =
        let k =
          (notifier.receive (far_streams.remote_peer c.far_end) req.msg_type req.body asked).1 in
        let e = far_streams.encode c.far_end reply k.world in
        rw
          (
            read_proto_message-reads far far_streams codecs codecs.general_request req bytes
                c.far_end (record m { world = c.arrived }) c.arrives read,
            judged,
            send_proto_message-sends far far_streams codecs codecs.general_response
                (record { body = data_bytes }) reply c.far_end k marshalled
                (c.answers reply k.world).0 (c.far_flushes e.1).0,
          )
          (c.closes _ ∙ (c.far_flushes e.1).1 ∙ (c.answers reply k.world).1)

    -- For a stream that carries the request to a responder and its answer back, messages that
    -- marshal and round-trip, and a notifier of the responder that answers the type and the body,
    -- which come from the far end's peer, with some bytes: generalRequest returns these bytes
    -- without an error.
    pub general_request-answered :
        (n : Node net) (msg_type : ℤ) (body data_bytes reply : Bytes)
        → RoundTrips codecs.general_request
        → RoundTrips codecs.general_response
        → codecs.general_request.marshal (record { msg_type = msg_type; body = body }) ≡ ok bytes
        → (notifier.receive (far_streams.remote_peer c.far_end) msg_type body asked).0
          ≡ ok data_bytes
        → codecs.general_response.marshal (record { body = data_bytes }) ≡ ok reply
        → (general_request net streams codecs peer msg_type body n).0 ≡ ok data_bytes
    unfolding general_request
    general_request-answered n msg_type body data_bytes reply req_law res_law marshalled judged
          replied =
        let req : GeneralRequest = record { msg_type = msg_type; body = body } in
        let (s, opened) = c.opens n.world in
        let w1 = (streams.new_stream peer general_request_protocol n.world).1 in
        let w2 = (streams.flush s (streams.encode s bytes w1).1).1 in
        let back =
          c.comes_back s w1
          ∙ ap ok
              (general_writes req data_bytes reply (req_law req bytes marshalled) judged replied) in
        rw (
          opened,
          send_proto_message-sends net streams codecs codecs.general_request req bytes s
              (record n { world = w1 }) marshalled (c.sends s w1) (c.flushes s _),
          read_proto_message-reads net streams codecs codecs.general_response
              (record { body = data_bytes }) reply s (record n { world = w2 }) back
              (res_law (record { body = data_bytes }) reply replied),
        )
