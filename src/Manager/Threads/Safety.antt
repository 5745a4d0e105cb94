-- ===== src/Manager/Threads/Safety.antt =====
-- Concurrent calls of `ListenShard` and `UnlistenShard` for different shards.
use sharding_p2p_poc.Prelude.{◌==◌, ℕ, ◌<◌, bytes_eq, false, ◌≡◌, ◌≢◌, nat_beq, if◌then◌else◌}
use sharding_p2p_poc.Shards.{num_shards, new_listening_shards, from_bytes}
use sharding_p2p_poc.Shards.View.{IsWellFormed}
use sharding_p2p_poc.PrefTable.View.{IsTable}
use sharding_p2p_poc.Network.{Network, shard_pref_handler}
use sharding_p2p_poc.State.{Node, Message, OnlyWorld}
use sharding_p2p_poc.Discovery.{Discovery}
use sharding_p2p_poc.Manager.{run_handler}
use sharding_p2p_poc.Manager.Threads.{Call, shard_of, Place, checking, move}
use sharding_p2p_poc.Manager.Threads.Stands.{Stands, prefers, subscribed}

abbrev pub update : (ℕ → Place) → ℕ → Place → ℕ → Place
update place i p j = if nat_beq i j then p else place j

-- What the threads share, and where each stands
pub record System (net : Network) : Type 0 where
  pub node : Node net
  pub place : ℕ → Place

module _ (net : Network) (d : Discovery (Node net)) (count : ℕ) (call : ℕ → Call) where
  open net use {host_id}

  -- A thread makes a step, another peer's announcement is handled, or the world changes.
  pub data Step (s : System net) : System net → Type 0 where
    pick :
        (i : ℕ)
        → i < count
        → Step s (record {
          node = (move net d (call i) (s.place i) s.node).1;
          place = update s.place i (move net d (call i) (s.place i) s.node).0;
        })
    heard :
        (msg : Message)
        → (host_id == msg.from) ≡ false
        → IsWellFormed (from_bytes new_listening_shards msg.payload)
        → Step s
            (record { node = (run_handler net shard_pref_handler msg s.node).1; place = s.place })
    elsewhere :
        (n : Node net) → OnlyWorld net s.node n → Step s (record { node = n; place = s.place })

  -- From a node, with every thread at the start of its method
  pub data Reach (n : Node net) : System net → Type 0 where
    start : Reach n (record { node = n; place = λ i. checking })
    later : {s t : System net} → Reach n s → Step s t → Reach n t

  -- No two threads are for one shard, and each is for a shard in range.
  pub record Apart : Type 0 where
    pub in_range : (i : ℕ) → i < count → shard_of (call i) < num_shards
    pub differ : (i j : ℕ) → i < count → j < count → shard_of (call i) ≡ shard_of (call j) → i ≡ j

  record Inv (s : System net) : Type 0 where
    is_table : IsTable s.node.shard_pref_table
    free :
        (t : ℕ)
        → t < num_shards
        → ((i : ℕ) → i < count → shard_of (call i) ≢ t)
        → prefers net s.node t ≡ subscribed net s.node t
    busy :
        (i : ℕ)
        → i < count
        → Stands
            (call i)
            (s.place i)
            (prefers net s.node (shard_of (call i)))
            (subscribed net s.node (shard_of (call i)))
