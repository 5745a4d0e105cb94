-- ===== src/Fixtures/Wires.antt =====
-- Two nodes on one stream: a world is what was last written.
use sharding_p2p_poc.Prelude.{
  ℕ, zero, suc, ◌++◌, length, replicate, ℤ, pos, negsuc, Bytes, [], ◌∷◌, List, Option, none, some,
  ◌≡◌, refl, ap,
}
use sharding_p2p_poc.Prelude.Assoc.{Assoc}
use sharding_p2p_poc.Outcome.{Outcome, ok, fail, panic, message}
use sharding_p2p_poc.Exec.{Exec}
use sharding_p2p_poc.Network.{Network}
use sharding_p2p_poc.State.{Node, initial_node}
use sharding_p2p_poc.Messages.{
  Codecs, RoundTrips, Peers, Response, Status, success, failure, ShardPeerRequest,
  ShardPeerResponse, GeneralRequest,
}
use sharding_p2p_poc.PrefTable.{new_shard_pref_table, set_peer_listening_shard}
use sharding_p2p_poc.PrefTable.View.{IsTable}
use sharding_p2p_poc.PrefTable.Ops.{new_shard_pref_table-IsTable, set_peer_listening_shard-IsTable}
use sharding_p2p_poc.Server.Broadcasts.{Publishes}
use sharding_p2p_poc.Requests.{Streams}
use sharding_p2p_poc.Requests.Wire.{Carries}
use sharding_p2p_poc.Fixtures.{
  host, alice, bob, codecs, some_shards, some_shards-IsWellFormed, encode_int, decode_int,
  decode_int-encode_int, ok_injective,
}

-- Nothing but publications changes the world, and random bytes are zeros.
abbrev pub quiet : (W : Type 0) → (Bytes → Bytes → W → W) → Network
quiet W published = record {
  World = W;
  Subscription = Bytes;
  CancelFunc = Unit {0};
  host_id = host;
  host_addrs = λ w. [];
  subscribe = λ topic w. (ok topic, w);
  cancel = λ sub w. w;
  register_topic_validator = λ topic validator w. (ok tt, w);
  publish = λ topic bytes w. (ok tt, published topic bytes w);
  list_peers = λ topic w. [];
  get_topics = λ w. [];
  connect = λ p w. (ok tt, w);
  conns_to_peer = λ p w. 0;
  network_peers = λ w. [];
  close_peer = λ p w. (ok tt, w);
  peer_info = λ p w. record { id = p; addrs = [] };
  add_addrs = λ p addrs w. w;
  peerstore_peers = λ w. [];
  dht_bootstrap = λ w. (ok tt, w);
  cancel_func = λ w. tt;
  call_cancel = λ cancel w. w;
  intn = λ n w. (0, w);
  intn-lt = λ n w h. h;
  slice_limit = 1000;
  rand_read = λ n w. (replicate n 0, w);
  peer_info-id = λ p w. refl;
}

abbrev pub paper : Network
paper = quiet Bytes (λ topic bytes w. bytes)

-- What is written to the far end stays there.
abbrev pub far_streams : Streams Bytes
far_streams = record {
  Stream = ℕ;
  new_stream = λ p protocol w. (ok 0, w);
  encode = λ s bytes w. (ok tt, bytes);
  flush = λ s w. (ok tt, w);
  decode = λ s w. (ok w, w);
  full_close = λ s w. w;
  close = λ s w. w;
  remote_peer = λ s. bob;
}

-- A flush runs the handler of the far end.
abbrev pub near_streams : (Bytes → Bytes) → Streams Bytes
near_streams run = record far_streams { flush = λ s w. (ok tt, run w) }

module _ (m : Node paper) (handler : ℕ → Exec (Node paper) (Unit {0})) where
  abbrev pub replied : Bytes → Bytes
  replied w = (handler 0 (record m { world = w })).1.world

  pub paper-Carries :
      (peer protocol bytes : Bytes)
      → Carries paper paper (near_streams replied) far_streams peer protocol bytes m handler
  paper-Carries peer protocol bytes = record {
    far_end = 0;
    arrived = bytes;
    written = λ w. w;
    opens = λ w. (0, refl);
    sends = λ s w. refl;
    flushes = λ s w p. cc;
    arrives = refl;
    answers = λ b w. (refl, refl);
    far_flushes = λ w. (λ p. cc, refl);
    closes = λ w. refl;
    comes_back = λ s w. refl;
  }

-- A request for one shard
abbrev marshal_ids : List ℤ → Outcome Bytes
marshal_ids [] = fail (message "empty")
marshal_ids (negsuc k ∷ ids) = fail (message "negative")
marshal_ids (pos s ∷ []) = ok (s ∷ [])
marshal_ids (pos s ∷ id ∷ ids) = fail (message "many")

abbrev unmarshal_ids : Bytes → Outcome ShardPeerRequest
unmarshal_ids [] = fail (message "empty")
unmarshal_ids (s ∷ rest) = ok (record { shard_ids = pos s ∷ [] })

ids-RoundTrips :
    (ids : List ℤ) (bytes : Bytes)
    → marshal_ids ids ≡ ok bytes
    → unmarshal_ids bytes ≡ ok (record { shard_ids = ids })
ids-RoundTrips [] bytes e = absurd (cc)
ids-RoundTrips (negsuc k ∷ ids) bytes e = absurd (cc)
ids-RoundTrips (pos s ∷ []) bytes e = rw (← ok_injective e)
ids-RoundTrips (pos s ∷ id ∷ ids) bytes e = absurd (cc)

-- An answer of one peer for one shard
abbrev marshal_peer : Status → ℤ → List Bytes → Outcome Bytes
marshal_peer success (pos s) (p ∷ []) = ok (s ∷ p)
marshal_peer status id peers = fail (message "other")

abbrev marshal_peers : Option Response → Assoc ℤ Peers → Outcome Bytes
marshal_peers (some r) ((id, peers) ∷ []) = marshal_peer r.status id peers.peers
marshal_peers response shard_peers = fail (message "other")

abbrev unmarshal_peers : Bytes → Outcome ShardPeerResponse
unmarshal_peers [] = fail (message "empty")
unmarshal_peers (s ∷ p) = ok (record {
  response = some (record { status = success });
  shard_peers = (pos s, record { peers = p ∷ [] }) ∷ [];
})

peer-RoundTrips :
    (status : Status) (id : ℤ) (peers : List Bytes) (bytes : Bytes)
    → marshal_peer status id peers ≡ ok bytes
    → unmarshal_peers bytes
      ≡ ok (record {
        response = some (record { status = status });
        shard_peers = (id, record { peers = peers }) ∷ [];
      })
peer-RoundTrips failure id peers bytes e = absurd (cc)
peer-RoundTrips success (negsuc k) peers bytes e = absurd (cc)
peer-RoundTrips success (pos s) [] bytes e = absurd (cc)
peer-RoundTrips success (pos s) (p ∷ []) bytes e = rw (← ok_injective e)
peer-RoundTrips success (pos s) (p ∷ q ∷ peers) bytes e = absurd (cc)

peers-RoundTrips :
    (response : Option Response) (shard_peers : Assoc ℤ Peers) (bytes : Bytes)
    → marshal_peers response shard_peers ≡ ok bytes
    → unmarshal_peers bytes ≡ ok (record { response = response; shard_peers = shard_peers })
peers-RoundTrips none shard_peers bytes e = absurd (cc)
peers-RoundTrips (some r) [] bytes e = absurd (cc)
peers-RoundTrips (some r) ((id, peers) ∷ []) bytes e =
    peer-RoundTrips r.status id peers.peers bytes e
peers-RoundTrips (some r) (entry ∷ other ∷ rest) bytes e = absurd (cc)

abbrev general_of : Outcome (ℤ × Bytes) → Outcome GeneralRequest
general_of (ok (msg_type, body)) = ok (record { msg_type = msg_type; body = body })
general_of (fail e) = fail e
general_of panic = panic

abbrev pub wire_codecs : Codecs
wire_codecs = record codecs {
  shard_peer_request = record {
    marshal = λ req. marshal_ids req.shard_ids;
    unmarshal = unmarshal_ids;
  };
  shard_peer_response = record {
    marshal = λ res. marshal_peers res.response res.shard_peers;
    unmarshal = unmarshal_peers;
  };
  general_request = record {
    marshal = λ req. ok (encode_int req.msg_type req.body);
    unmarshal = λ bytes. general_of (decode_int bytes);
  };
  general_response = record {
    marshal = λ res. ok res.body;
    unmarshal = λ bytes. ok (record { body = bytes });
  };
}

pub shard_peer_request-RoundTrips : RoundTrips wire_codecs.shard_peer_request
shard_peer_request-RoundTrips req bytes e = ids-RoundTrips req.shard_ids bytes e

pub shard_peer_response-RoundTrips : RoundTrips wire_codecs.shard_peer_response
shard_peer_response-RoundTrips res bytes e = peers-RoundTrips res.response res.shard_peers bytes e

pub general_request-RoundTrips : RoundTrips wire_codecs.general_request
general_request-RoundTrips req bytes e =
    rw (← ok_injective e, decode_int-encode_int req.msg_type req.body)

pub general_response-RoundTrips : RoundTrips wire_codecs.general_response
general_response-RoundTrips res bytes e = rw (← ok_injective e)

-- Alice listens to the shards 0, 5 and 42.
abbrev pub responder : Node paper
responder = record (initial_node paper []) {
  shard_pref_table = set_peer_listening_shard new_shard_pref_table alice some_shards;
}

pub responder-IsTable : IsTable responder.shard_pref_table
responder-IsTable =
    set_peer_listening_shard-IsTable new_shard_pref_table alice new_shard_pref_table-IsTable
      some_shards some_shards-IsWellFormed

-- A world is what was published.
abbrev pub printing : Network
printing = quiet (List (Bytes × Bytes)) (λ topic bytes w. w ++ (topic, bytes) ∷ [])

length-zeros : (k : ℕ) → length {A = ℕ} (replicate k 0) ≡ k
length-zeros zero = refl
length-zeros (suc k) = ap suc (length-zeros k)

pub printing-Publishes : Publishes printing
printing-Publishes = record {
  log = λ w. w;
  publishes = λ topic bytes w. (refl, refl);
  reads = λ k w. refl;
  fills = λ k w. length-zeros k;
}
