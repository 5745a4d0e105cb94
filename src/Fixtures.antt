-- ===== src/Fixtures.antt =====
-- Concrete instances of the interfaces, at which the tests evaluate the program.
pub mod Clients
pub mod Wires
use sharding_p2p_poc.Prelude.{
  ℕ, ◌+◌, ◌≡◌, refl, arith, ℤ, pos, negsuc, Bytes, Bool, true, false, [], ◌∷◌, none, zero, suc,
  contains, if◌then◌else◌,
}
use sharding_p2p_poc.Outcome.{Outcome, ok, fail, panic, message}
use sharding_p2p_poc.Network.{Network, PeerInfo}
use sharding_p2p_poc.State.{Node}
use sharding_p2p_poc.Manager.Calm.{IsCalm}
use sharding_p2p_poc.Messages.{Codec, Codecs, RoundTrips, Collation, MessageWithType}
use sharding_p2p_poc.Shards.{ListeningShards}
use sharding_p2p_poc.Shards.View.{IsWellFormed}
use sharding_p2p_poc.PrefTable.{ShardPrefTable, new_shard_pref_table, set_peer_listening_shard}
use sharding_p2p_poc.PrefTable.View.{IsTable}
use sharding_p2p_poc.PrefTable.Ops.{new_shard_pref_table-IsTable, set_peer_listening_shard-IsTable}

abbrev pub host : Bytes
host = 104 ∷ []

abbrev pub alice : Bytes
alice = 97 ∷ []

abbrev pub bob : Bytes
bob = 98 ∷ []

-- A world counts the calls; pubsub lets one subscribe, or refuses.
abbrev pub counting : Bool → Network
counting open_to_all = record {
  World = ℕ;
  Subscription = Bytes;
  CancelFunc = ℕ;
  host_id = host;
  host_addrs = λ w. [];
  subscribe = λ topic w. (if open_to_all then ok topic else fail (message "refused"), w + 1);
  cancel = λ sub w. w + 1;
  register_topic_validator = λ topic validator w. (ok tt, w + 1);
  publish = λ topic bytes w. (ok tt, w + 1);
  list_peers = λ topic w. bob ∷ [];
  get_topics = λ w. [];
  connect = λ p w. (ok tt, w + 1);
  conns_to_peer = λ p w. 0;
  network_peers = λ w. bob ∷ [];
  close_peer = λ p w. (ok tt, w + 1);
  peer_info = λ p w. record { id = p; addrs = [] };
  add_addrs = λ p addrs w. w + 1;
  peerstore_peers = λ w. alice ∷ bob ∷ [];
  dht_bootstrap = λ w. (ok tt, w + 1);
  cancel_func = λ w. w;
  call_cancel = λ cancel w. w + 1;
  intn = λ n w. (0, w + 1);
  intn-lt = λ n w h. h;
  slice_limit = 1000;
  rand_read = λ n w. ([], w + 1);
  peer_info-id = λ p w. refl;
}

abbrev pub network : Network
network = counting true

abbrev pub refusing : Network
refusing = counting false

abbrev pub alice_info : PeerInfo
alice_info = record { id = alice; addrs = [] }

-- A listener of the shards 0, 5 and 42
abbrev pub some_shards : ListeningShards
some_shards = record { shard_bits = 33 ∷ 0 ∷ 0 ∷ 0 ∷ 0 ∷ 4 ∷ 0 ∷ 0 ∷ 0 ∷ 0 ∷ 0 ∷ 0 ∷ 0 ∷ [] }

pub some_shards-IsWellFormed : IsWellFormed some_shards
some_shards-IsWellFormed = record { long = omega arith; bytes = omega arith }

abbrev pub table : ShardPrefTable
table =
    set_peer_listening_shard (set_peer_listening_shard new_shard_pref_table alice some_shards) host
      some_shards

pub table-IsTable : IsTable table
table-IsTable =
    set_peer_listening_shard-IsTable _ host
      (set_peer_listening_shard-IsTable new_shard_pref_table alice new_shard_pref_table-IsTable
        some_shards some_shards-IsWellFormed)
      some_shards some_shards-IsWellFormed

abbrev pub node : Node network
node = record {
  shard_pref_table = table;
  subs = [];
  readers = [];
  do_bootstrapping = false;
  cancel_bootstrapping = none;
  world = 0;
}

-- A codec that writes numbers whole.
abbrev pub encode_int : ℤ → Bytes → Bytes
encode_int (pos n) rest = 0 ∷ n ∷ rest
encode_int (negsuc n) rest = 1 ∷ n ∷ rest

abbrev pub decode_int : Bytes → Outcome (ℤ × Bytes)
decode_int [] = fail (message "end")
decode_int (sign ∷ []) = fail (message "end")
decode_int (zero ∷ n ∷ rest) = ok (pos n, rest)
decode_int (suc sign ∷ n ∷ rest) = ok (negsuc n, rest)

abbrev collation_of : Outcome (ℤ × Bytes) → Outcome Collation
collation_of (ok (id, rest)) = with_period id (decode_int rest)
  where
    with_period : ℤ → Outcome (ℤ × Bytes) → Outcome Collation
    with_period id (ok (period, blobs)) =
        ok (record { shard_id = id; period = period; blobs = blobs })
    with_period id (fail e) = fail e
    with_period id panic = panic
collation_of (fail e) = fail e
collation_of panic = panic

abbrev pub collation_codec : Codec Collation
collation_codec = record {
  marshal = λ c. ok (encode_int c.shard_id (encode_int c.period c.blobs));
  unmarshal = λ bytes. collation_of (decode_int bytes);
}

abbrev message_of : Outcome (ℤ × Bytes) → Outcome MessageWithType
message_of (ok (msg_type, body)) = ok (record { msg_type = msg_type; body = body })
message_of (fail e) = fail e
message_of panic = panic

abbrev pub message_codec : Codec MessageWithType
message_codec = record {
  marshal = λ m. ok (encode_int m.msg_type m.body);
  unmarshal = λ bytes. message_of (decode_int bytes);
}

-- A peer that asks for the shard -8, and others that say nothing.
abbrev pub codecs : Codecs
codecs = record {
  collation = collation_codec;
  message_with_type = message_codec;
  shard_peer_request = record {
    marshal = λ req. ok [];
    unmarshal = λ bytes. ok (record { shard_ids = negsuc 7 ∷ [] });
  };
  shard_peer_response = record {
    marshal = λ res. ok [];
    unmarshal = λ bytes. fail (message "end");
  };
  general_request = record { marshal = λ req. ok []; unmarshal = λ bytes. fail (message "end") };
  general_response = record { marshal = λ res. ok []; unmarshal = λ bytes. fail (message "end") };
  pretty = λ p. p;
  idb58_decode = λ text. ok text;
}

pub decode_int-encode_int : (z : ℤ) (rest : Bytes) → decode_int (encode_int z rest) ≡ ok (z, rest)
decode_int-encode_int (pos n) rest = refl
decode_int-encode_int (negsuc n) rest = refl

pub ok_injective : {x y : Bytes} → ok x ≡ ok y → x ≡ y
ok_injective p = cc

pub collation_codec-RoundTrips : RoundTrips collation_codec
collation_codec-RoundTrips c bytes e = rw (
  ← ok_injective e,
  decode_int-encode_int c.shard_id (encode_int c.period c.blobs),
  decode_int-encode_int c.period c.blobs,
)

pub message_codec-RoundTrips : RoundTrips message_codec
message_codec-RoundTrips m bytes e = rw (← ok_injective e, decode_int-encode_int m.msg_type m.body)

pub network-IsCalm : IsCalm network
unfolding contains
network-IsCalm = record {
  subscribes = λ topic w p. cc;
  registers = λ topic v w p. cc;
  publishes = λ topic bytes w p. cc;
  connects = λ p w q. cc;
  peers_once = λ topic w. (refl, tt);
}
