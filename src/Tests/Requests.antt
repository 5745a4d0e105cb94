-- ===== src/Tests/Requests.antt =====
-- requests.go: a request for peers, answered and read, and one that ends the process.
use sharding_p2p_poc.Prelude.{
  ℕ, negsuc, bytes_eq, nat_eq, int_eq, ◌≡◌, refl, arith, contains, [], ◌∷◌, some, true,
}
use sharding_p2p_poc.Prelude.Assoc.{lookup, lookup-insert_self}
use sharding_p2p_poc.Outcome.{ok, panic}
use sharding_p2p_poc.PrefTable.{set_peer_listening_shard}
use sharding_p2p_poc.Requests.{read_proto_message, Streams, on_shard_peer_request}
use sharding_p2p_poc.Requests.Answers.{negative_request}
use sharding_p2p_poc.Fixtures.{network, node, codecs, table, bob, some_shards, host}

-- Streams of one-byte names, on which each read gives the same bytes.
abbrev streams : Streams ℕ
streams = record {
  Stream = ℕ;
  new_stream = λ p protocol w. (ok w, w);
  encode = λ s bytes w. (ok tt, w);
  flush = λ s w. (ok tt, w);
  decode = λ s w. (ok [], w);
  full_close = λ s w. w;
  close = λ s w. w;
  remote_peer = λ s. bob;
}

asked :
    read_proto_message network streams codecs codecs.shard_peer_request 0 node
    ≡ (ok (record { shard_ids = negsuc 7 ∷ [] }), node)
unfolding read_proto_message
asked = refl

asks_for_it : contains (negsuc 7 ∷ []) (negsuc 7) ≡ true
unfolding contains
asks_for_it = refl

host_entry : lookup host table.shard_pref_map ≡ some some_shards
unfolding set_peer_listening_shard
host_entry = lookup-insert_self host some_shards _

negative_request_example : (on_shard_peer_request network streams codecs 0 node).0 ≡ panic
negative_request_example =
    negative_request network streams codecs 0 node node (record { shard_ids = negsuc 7 ∷ [] }) host
      some_shards 7 asked asks_for_it (omega arith) (omega arith) host_entry refl
