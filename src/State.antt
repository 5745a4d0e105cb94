-- ===== src/State.antt =====
-- node.go, lines 13 to 24, and shardmanager.go, lines 20 to 33 and 46 to 47: the state of a node.
use sharding_p2p_poc.Prelude.{◌≡◌, arith, Bytes, Bool, false, Option, none, List, []}
use sharding_p2p_poc.Prelude.Assoc.{Assoc}
use sharding_p2p_poc.Outcome.{Outcome}
use sharding_p2p_poc.Exec.{Exec}
use sharding_p2p_poc.PrefTable.{ShardPrefTable, new_shard_pref_table}
use sharding_p2p_poc.Network.{Network, TopicHandler}

pub record Message : Type 0 where
  pub from : Bytes
  pub payload : Bytes

module _ (net : Network) where
  open net use {World, Subscription, CancelFunc}

  pub record Node : Type 0 where
    pub shard_pref_table : ShardPrefTable
    pub subs : Assoc Bytes Subscription
    -- The goroutines that `SubscribeTopic` has started.
    pub readers : List (Subscription × TopicHandler)
    pub do_bootstrapping : Bool
    pub cancel_bootstrapping : Option CancelFunc
    pub world : World

  -- The state that NewNode and NewShardManager start from.
  unfoldable pub initial_node : World → Node
  initial_node world = record {
    shard_pref_table = new_shard_pref_table;
    subs = [];
    readers = [];
    do_bootstrapping = false;
    cancel_bootstrapping = none;
    world = world;
  }

  -- A library call within the node.
  abbrev pub external {ℓ} : {A : Type ℓ} → (World → Outcome A × World) → Exec Node A
  external call n = ((call n.world).0, record n { world = (call n.world).1 })

  abbrev pub effect : (World → World) → Exec Node (Unit {0})
  effect f n = (Outcome.ok tt, record n { world = f n.world })

  -- All but the world is as before.
  abbrev pub OnlyWorld : Node → Node → Type 0
  OnlyWorld n n' = n' ≡ record n { world = n'.world }

  pub OnlyWorld-trans : (a b c : Node) → OnlyWorld a b → OnlyWorld b c → OnlyWorld a c
  OnlyWorld-trans a b c p q = ground arith
