-- ===== src/Network.antt =====
-- What the node uses of libp2p and of Go's random numbers: an interface. A `World` is the state of
-- the host, the pubsub service, the DHT and the generator; a call is an outcome and the next world.
-- The handlers and validators that the program hands to pubsub are named by constructors.
use sharding_p2p_poc.Prelude.{ℕ, ◌<◌, ◌≡◌, Bytes, List}
use sharding_p2p_poc.Outcome.{Outcome}

-- pstore.PeerInfo
pub record PeerInfo : Type 0 where
  pub id : Bytes
  pub addrs : List Bytes

-- makeShardPrefHandler, makeGeneralHandler of shardmanager.go
pub data TopicHandler : Type 0 where
  shard_pref_handler general_handler : TopicHandler

-- makeShardPrefValidator, makeGeneralValidator
pub data TopicValidator : Type 0 where
  shard_pref_validator general_validator : TopicValidator

pub record Network : Type 1 where
  pub World : Type 0
  pub Subscription : Type 0
  pub CancelFunc : Type 0
  -- host.ID(), host.Addrs()
  pub host_id : Bytes
  pub host_addrs : World → List Bytes
  -- pubsub: Subscribe, Subscription.Cancel, RegisterTopicValidator, Publish, ListPeers, GetTopics
  pub subscribe : Bytes → World → Outcome Subscription × World
  pub cancel : Subscription → World → World
  pub register_topic_validator : Bytes → TopicValidator → World → Outcome (Unit {0}) × World
  pub publish : Bytes → Bytes → World → Outcome (Unit {0}) × World
  pub list_peers : Bytes → World → List Bytes
  pub get_topics : World → List Bytes
  -- host: Connect, Network().ConnsToPeer, Network().Peers, Network().ClosePeer
  pub connect : PeerInfo → World → Outcome (Unit {0}) × World
  pub conns_to_peer : Bytes → World → ℕ
  pub network_peers : World → List Bytes
  pub close_peer : Bytes → World → Outcome (Unit {0}) × World
  -- Peerstore(): PeerInfo, AddAddrs, Peers
  pub peer_info : Bytes → World → PeerInfo
  pub add_addrs : Bytes → List Bytes → World → World
  pub peerstore_peers : World → List Bytes
  -- dht.Bootstrap under a new context, and the cancel function of a context
  pub dht_bootstrap : World → Outcome (Unit {0}) × World
  pub cancel_func : World → CancelFunc
  pub call_cancel : CancelFunc → World → World
  -- rand.Intn(n) for 0 < n, which documents a result below n
  pub intn : ℕ → World → ℕ × World
  pub intn-lt : (n : ℕ) (w : World) → 0 < n → (intn n w).0 < n
  -- The length from which on make([]byte, n) panics, and rand.Read into a slice of n bytes
  pub slice_limit : ℕ
  pub rand_read : ℕ → World → Bytes × World
  -- PeerInfo(p).ID is p
  pub peer_info-id : (p : Bytes) (w : World) → (peer_info p w).id ≡ p
