-- ===== src/Rpc.antt =====
-- pb/rpc/rpc.proto: the service Poc, as the interface of its client. A request and an answer are
-- their fields. A nil slice and an empty one are the empty list.
use sharding_p2p_poc.Prelude.{ℤ, Bytes, Bool, List, Option}
use sharding_p2p_poc.Prelude.Assoc.{Assoc}
use sharding_p2p_poc.Exec.{Exec}
use sharding_p2p_poc.Messages.{Peers, Collation}

pub record PocClient (S : Type 0) : Type 0 where
  pub identify : Exec S (Bytes × List Bytes)
  -- ip, port and seed
  pub add_peer : Bytes → ℤ → ℤ → Exec S (Unit {0})
  pub discover_shard : List Bytes → Exec S (Assoc Bytes Peers)
  pub subscribe_shard : ℤ → List ℤ → Exec S (Unit {0})
  pub unsubscribe_shard : List ℤ → Exec S (Unit {0})
  pub get_subscribed_shard : Exec S (List ℤ)
  -- shard, number, size and period
  pub broadcast_collation : ℤ → ℤ → ℤ → ℤ → Exec S (Unit {0})
  pub send_collation : Option Collation → Exec S (Unit {0})
  pub stop_server : Exec S (Unit {0})
  -- peer, topic, type and data
  pub send : Bytes → Bytes → ℤ → Bytes → Exec S Bytes
  pub list_peer : Exec S (List Bytes)
  pub list_topic_peer : List Bytes → Exec S (Assoc Bytes Peers)
  pub remove_peer : Bytes → Exec S (Unit {0})
  pub bootstrap : Bool → Bytes → Exec S (Unit {0})

-- grpc.Dial
abbrev pub Dial : Type 0 → Type 0
Dial S = Bytes → Exec S (PocClient S)
