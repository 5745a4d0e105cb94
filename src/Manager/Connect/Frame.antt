-- ===== src/Manager/Connect/Frame.antt =====
-- shardmanager.go, lines 93 to 167: which part of the node `connectShardNodes` reaches.
use sharding_p2p_poc.Prelude.{
  ℕ, zero, suc, ℤ, Bytes, Bool, true, false, if◌then◌else◌, ◌≡◌, refl, List, [], ◌∷◌, length,
}
use sharding_p2p_poc.Outcome.{Outcome, ok, fail, panic}
use sharding_p2p_poc.Exec.{Exec, gets, pure, lift, attempt, seen, continue, ◌>>=◌}
use sharding_p2p_poc.Network.{Network, PeerInfo}
use sharding_p2p_poc.State.{Node, OnlyWorld, OnlyWorld-trans, external}
use sharding_p2p_poc.Discovery.{Discovery}
use sharding_p2p_poc.Discovery.Laws.{ShardDiscovery}
use sharding_p2p_poc.Manager.Connect.{
  random, remove_at, drop_random, connect_all, connect_shard_nodes,
}

-- A call is quiet if it reaches the state only through the world; a block of quiet calls is quiet.
module _ (net : Network) where
  pub record Quiet {ℓ} {A : Type ℓ} (m : Exec (Node net) A) : Type 0 where
    pub at : (n : Node net) → OnlyWorld net n (m n).1

  Quiet-continue {ℓ κ} :
      {A : Type ℓ} {B : Type κ} (r : Outcome A) (f : A → Exec (Node net) B) (n t : Node net)
      → OnlyWorld net n t
      → ((a : A) → Quiet (f a))
      → OnlyWorld net n (continue r f t).1
  Quiet-continue (ok a) f n t h q = OnlyWorld-trans net n t (f a t).1 h ((q a).at t)
  Quiet-continue (fail e) f n t h q = h
  Quiet-continue panic f n t h q = h

  pub Quiet-bind {ℓ κ} :
      {A : Type ℓ} {B : Type κ} (m : Exec (Node net) A) (f : A → Exec (Node net) B)
      → Quiet m
      → ((a : A) → Quiet (f a))
      → Quiet (m >>= f)
  Quiet-bind m f hm hf = record { at = λ n. Quiet-continue (m n).0 f n (m n).1 (hm.at n) hf }

  pub Quiet-gets {ℓ} : {A : Type ℓ} (f : Node net → A) → Quiet (gets f)
  Quiet-gets f = record { at = λ n. refl }

  pub Quiet-pure {ℓ} : {A : Type ℓ} (a : A) → Quiet (pure {S = Node net} a)
  Quiet-pure a = record { at = λ n. refl }

  pub Quiet-lift {ℓ} : {A : Type ℓ} (r : Outcome A) → Quiet (lift {S = Node net} r)
  Quiet-lift r = record { at = λ n. refl }

  pub Quiet-external {ℓ} :
      {A : Type ℓ} (call : net.World → Outcome A × net.World) → Quiet (external net call)
  Quiet-external call = record { at = λ n. refl }

  seen-state {ℓ} : {A : Type ℓ} (r : Outcome A) (n : Node net) → (seen r n).1 ≡ n
  seen-state (ok a) n = refl
  seen-state (fail e) n = refl
  seen-state panic n = refl

  pub Quiet-attempt {ℓ} : {A : Type ℓ} (m : Exec (Node net) A) → Quiet m → Quiet (attempt m)
  Quiet-attempt m q = record { at = λ n. rw (seen-state (m n).0 (m n).1) (q.at n) }

  pub Quiet-if {ℓ} :
      {A : Type ℓ} (b : Bool) (m k : Exec (Node net) A)
      → Quiet m
      → Quiet k
      → Quiet (if b then m else k)
  Quiet-if true m k hm hk = hm
  Quiet-if false m k hm hk = hk

pub ruleset quiet_rules =
    (Quiet-bind, Quiet-if, Quiet-gets, Quiet-pure, Quiet-lift, Quiet-external, Quiet-attempt)

module _ (net : Network) where
  open net use {World, connect, intn}

  random-Quiet : (k : ℕ) → Quiet net (random net k)
  random-Quiet zero = record { at = λ n. refl }
  random-Quiet (suc k) = record { at = λ n. refl }

  drop_random-Quiet : (left : ℕ) (pinfos : List PeerInfo) → Quiet net (drop_random net left pinfos)
  unfolding drop_random
  drop_random-Quiet zero pinfos = search quiet_rules
  drop_random-Quiet (suc left) pinfos =
      Quiet-bind net (random net (length pinfos)) _ (random-Quiet (length pinfos))
        (λ i. drop_random-Quiet left (remove_at i pinfos))

  connect_all-Quiet : (pinfos : List PeerInfo) → Quiet net (connect_all net pinfos)
  unfolding connect_all
  connect_all-Quiet [] = search quiet_rules
  connect_all-Quiet (p ∷ pinfos) =
      Quiet-bind net (attempt (external net (connect p))) _ (search quiet_rules)
        (λ _. connect_all-Quiet pinfos)

  -- For a discovery service that keeps its contract, connectShardNodes changes nothing of the node
  -- but its world, whatever the peers and the dials do.
  pub connect_shard_nodes-Quiet :
      (d : Discovery (Node net)) (num s : ℤ)
      → ShardDiscovery net d
      → Quiet net (connect_shard_nodes net d num s)
  unfolding connect_shard_nodes
  connect_shard_nodes-Quiet d num s laws =
      search (quiet_rules, find_peers-Quiet, drop_random-Quiet, connect_all-Quiet) depth 8
    where
      find_peers-Quiet : (topic : Bytes) → Quiet net (d.find_peers topic)
      find_peers-Quiet topic = record { at = λ n. laws.reads n topic }
