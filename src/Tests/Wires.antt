-- ===== src/Tests/Wires.antt =====
-- requests.go: requests over a stream between two nodes.
use sharding_p2p_poc.Prelude.{
  ℕ, ℤ, pos, Bytes, bytes_eq, bytes_beq, nat_eq, int_eq, ◌≡◌, refl, sym, ◌∙◌, ◌-◌, ltb, true, arith,
  contains, map, List, [], ◌∷◌, none, some, if◌then◌else◌,
}
use sharding_p2p_poc.Prelude.Assoc.{has_key, Assoc, lookup, insert}
use sharding_p2p_poc.Outcome.{Outcome, ok, fail, panic}
use sharding_p2p_poc.Text.{get_collations_topic, format_int, format_uint, digits_loop}
use sharding_p2p_poc.Server.Collations.{broadcast_collations}
use sharding_p2p_poc.Server.Broadcasts.{Broadcasts}
use sharding_p2p_poc.Server.Receiving.{Judges, AreJudged, broadcast-judged}
use sharding_p2p_poc.Exec.{Exec}
use sharding_p2p_poc.Shards.{is_shard_set, shard_id_to_bit_index}
use sharding_p2p_poc.PrefTable.{new_shard_pref_table, set_peer_listening_shard, get_peers_in_shard}
use sharding_p2p_poc.PrefTable.View.{listens}
use sharding_p2p_poc.State.{Node, initial_node}
use sharding_p2p_poc.Messages.{Peers}
use sharding_p2p_poc.Notifier.{mock_event_notifier}
use sharding_p2p_poc.Peers.{peer_ids_to_pb_peers, peer_ids_to_peers_string}
use sharding_p2p_poc.Requests.{
  collect_peers, on_shard_peer_request, request_shard_peer, on_general_request, general_request,
  shard_peer_request_protocol, general_request_protocol,
}
use sharding_p2p_poc.Requests.Exchange.{
  peers_response, request_shard_peer-answered, general_request-answered,
}
use sharding_p2p_poc.Fixtures.{
  alice, host, collation_codec, message_codec, collation_codec-RoundTrips, message_codec-RoundTrips,
}
use sharding_p2p_poc.Fixtures.Wires.{
  printing, printing-Publishes, paper, far_streams, near_streams, replied, paper-Carries,
  wire_codecs, responder, responder-IsTable, shard_peer_request-RoundTrips,
  shard_peer_response-RoundTrips, general_request-RoundTrips, general_response-RoundTrips,
}

abbrev answering : ℕ → Exec (Node paper) (Unit {0})
answering = on_shard_peer_request paper far_streams wire_codecs

collected :
    collect_peers wire_codecs responder.shard_pref_table (map pos (42 ∷ [])) []
    ≡ ok ((pos 42, record { peers = alice ∷ [] }) ∷ [])
unfolding collect_peers get_peers_in_shard set_peer_listening_shard new_shard_pref_table insert
    bytes_beq is_shard_set shard_id_to_bit_index peer_ids_to_pb_peers peer_ids_to_peers_string
collected = refl

ok_same : {A : Type 0} {x y : A} → ok x ≡ ok y → x ≡ y
ok_same e = cc

answer_marshals :
    (sent : Assoc ℤ Peers)
    → collect_peers wire_codecs responder.shard_pref_table (map pos (42 ∷ [])) [] ≡ ok sent
    → (reply : Bytes) × (wire_codecs.shard_peer_response.marshal (peers_response sent) ≡ ok reply)
answer_marshals sent e = (42 ∷ alice, rw (← ok_same (sym collected ∙ e)))

request_shard_peer-answered_example :
    (received : Assoc ℤ (List Bytes)) × (found : ℕ → List Bytes) × ((request_shard_peer paper
        (near_streams (replied responder answering))
        wire_codecs
        alice
        (map pos (42 ∷ []))
        responder).0
      ≡ ok received)
    × ((s : ℕ) → lookup (pos s) received ≡ (if contains (42 ∷ []) s then some (found s) else none))
    × ((s : ℕ) (q : Bytes) → contains (found s) q ≡ listens responder.shard_pref_table q s)
request_shard_peer-answered_example =
    request_shard_peer-answered paper paper (near_streams (replied responder answering)) far_streams
      wire_codecs alice (42 ∷ []) responder
      (paper-Carries responder answering alice shard_peer_request_protocol (42 ∷ [])) responder
      (42 ∷ []) shard_peer_request-RoundTrips shard_peer_response-RoundTrips (λ p. refl) refl
      answer_marshals responder-IsTable (omega arith)

abbrev judging : ℕ → Exec (Node paper) (Unit {0})
judging = on_general_request paper far_streams wire_codecs mock_event_notifier

general_request-answered_example :
    (general_request paper
      (near_streams (replied responder judging))
      wire_codecs
      host
      (pos 5)
      alice
      responder).0
    ≡ ok (1 ∷ [])
general_request-answered_example =
    general_request-answered paper paper (near_streams (replied responder judging)) far_streams
      wire_codecs host (0 ∷ 5 ∷ alice) responder mock_event_notifier
      (paper-Carries responder judging host general_request_protocol (0 ∷ 5 ∷ alice)) responder
      (pos 5) alice (1 ∷ []) (1 ∷ []) general_request-RoundTrips general_response-RoundTrips refl
      (unfold mock_event_notifier in refl) refl

abbrev bytes_in : Outcome Bytes → Bytes
bytes_in (ok bytes) = bytes
bytes_in (fail e) = []
bytes_in panic = []

-- A node that is subscribed to the topic of the shard 7
abbrev printer : Node printing
printer = record (initial_node printing []) {
  subs = (get_collations_topic (pos 7), get_collations_topic (pos 7)) ∷ [];
}

subscribed_to_7 : has_key (get_collations_topic (pos 7)) printer.subs ≡ true
unfolding lookup bytes_beq get_collations_topic format_int format_uint digits_loop
subscribed_to_7 = refl

-- A host that approves of everything, as the mock does
everything : Judges wire_codecs paper mock_event_notifier responder alice (λ c. true)
unfolding mock_event_notifier
everything = record { answers = λ body c e. refl }

broadcast-judged_example :
    (b : Broadcasts wire_codecs printing printing-Publishes printer
      (pos 7)
      0
      3
      (if ltb 100 102 then 102 - 100 else 102)
      (broadcast_collations printing wire_codecs (pos 7) (pos 3) (pos 102) printer))
    × AreJudged wire_codecs paper mock_event_notifier responder alice
        (λ c. true)
        (pos 7)
        0
        (if ltb 100 102 then 102 - 100 else 102)
        b.sent
broadcast-judged_example =
    broadcast-judged wire_codecs paper mock_event_notifier responder alice printing
      printing-Publishes printer (λ c. true) (pos 7) 3 102 collation_codec-RoundTrips
      message_codec-RoundTrips (λ c. (bytes_in (collation_codec.marshal c), refl))
      (λ c. (bytes_in (message_codec.marshal c), refl)) (omega arith) subscribed_to_7 everything
