-- ===== src/Server/Calm.antt =====
-- rpcserver.go, lines 170 to 225: SubscribeShard and UnsubscribeShard always return.
use sharding_p2p_poc.Prelude.{ℕ, ◌<◌, ℤ, pos, ◌≡◌, ◌≢◌, arith, List, [], ◌∷◌, map, All}
use sharding_p2p_poc.Outcome.{ok, panic, returns, fails, panics, ending}
use sharding_p2p_poc.Exec.{Exec}
use sharding_p2p_poc.Shards.{num_shards}
use sharding_p2p_poc.PrefTable.View.{IsTable}
use sharding_p2p_poc.Network.{Network}
use sharding_p2p_poc.State.{Node}
use sharding_p2p_poc.Discovery.{Discovery}
use sharding_p2p_poc.Discovery.Laws.{ShardDiscovery}
use sharding_p2p_poc.Manager.{listen_shard, unlisten_shard}
use sharding_p2p_poc.Manager.Calm.{
  IsCalm, IsCalmDiscovery, seen-calm, listen_shard-calm, unlisten_shard-calm,
}
use sharding_p2p_poc.Server.Preferences.{
  succeeded, subscribe_loop, subscribe_shard, unsubscribe_loop, unsubscribe_shard,
}
use sharding_p2p_poc.Server.Loops.{dropping}
use sharding_p2p_poc.Server.Laws.{Joined, listen_shard-Joined, subscribe_shard-Joined}
use sharding_p2p_poc.Server.Leaving.{Left, unlisten_shard-Left, unsubscribe_shard-Left}

module _ (net : Network) (d : Discovery (Node net)) (calm : IsCalm net)
    (finds : IsCalmDiscovery net d) (laws : ShardDiscovery net d) where
  subscribe_loop-calm :
      (n : Node net) (num : ℤ) (ids : List ℕ) (done : List ℤ)
      → IsTable n.shard_pref_table
      → All (λ s. s < num_shards) ids
      → (subscribe_loop net d num (map pos ids) done n).0 ≢ panic
  unfolding subscribe_loop
  subscribe_loop-calm n num [] done w h = λ p. cc
  subscribe_loop-calm n num (s ∷ ids) done w h =
      let r = listen_shard net d num (pos s) n in
      seen-calm r.0 r.1
        (λ failure. subscribe_loop net d num (map pos ids) (succeeded failure (pos s) done))
        (listen_shard-calm net calm d finds laws n num s w h.0)
        (λ o.
          subscribe_loop-calm r.1 num ids (succeeded o (pos s) done)
            (listen_shard-Joined net d laws n num s w h.0).is_table h.1)

  unsubscribe_loop-calm :
      (n : Node net) (ids : List ℕ) (done : List ℤ)
      → IsTable n.shard_pref_table
      → All (λ s. s < num_shards) ids
      → (unsubscribe_loop net d (map pos ids) done n).0 ≢ panic
  unfolding unsubscribe_loop
  unsubscribe_loop-calm n [] done w h = λ p. cc
  unsubscribe_loop-calm n (s ∷ ids) done w h =
      let r = unlisten_shard net d (pos s) n in
      seen-calm r.0 r.1
        (λ failure. unsubscribe_loop net d (map pos ids) (succeeded failure (pos s) done))
        (unlisten_shard-calm net calm d finds laws n s w h.0)
        (λ o.
          unsubscribe_loop-calm r.1 ids (succeeded o (pos s) done)
            (unlisten_shard-Left net d laws n s w h.0).is_table h.1)

  dropping-calm :
      (loop : Exec (Node net) (List ℤ)) (n : Node net)
      → (loop n).0 ≢ panic
      → (dropping loop n).0 ≢ panic
  dropping-calm loop n h p = elim (ending (loop n).0) [
    | panics e ↦ h e
    | returns ids e ↦ absurd (ground (arith, e, p))
    | fails err e ↦ absurd (ground (arith, e, p))
  ]

  -- With calm libraries and a calm discovery service that keeps its contract, on a well-formed
  -- table and for shards below 100, SubscribeShard returns without an error, whatever the calls of
  -- ListenShard returned, and leaves a well-formed table in which the host listens to each of the
  -- shards and every other pair is as before.
  pub subscribe_shard-total :
      (n : Node net) (num : ℤ) (ids : List ℕ)
      → IsTable n.shard_pref_table
      → All (λ s. s < num_shards) ids
      → ((subscribe_shard net d num (map pos ids) n).0 ≡ ok tt)
        × Joined net d n ids (subscribe_shard net d num (map pos ids) n).1
  subscribe_shard-total n num ids w h = subscribe_shard-Joined net d laws n num ids w h (
      unfold subscribe_shard in
      dropping-calm (subscribe_loop net d num (map pos ids) []) n
        (subscribe_loop-calm n num ids [] w h))

  -- UnsubscribeShard returns as well, and the host has left the shards.
  pub unsubscribe_shard-total :
      (n : Node net) (ids : List ℕ)
      → IsTable n.shard_pref_table
      → All (λ s. s < num_shards) ids
      → ((unsubscribe_shard net d (map pos ids) n).0 ≡ ok tt)
        × Left net d n ids (unsubscribe_shard net d (map pos ids) n).1
  unsubscribe_shard-total n ids w h = unsubscribe_shard-Left net d laws n ids w h (
      unfold unsubscribe_shard in
      dropping-calm (unsubscribe_loop net d (map pos ids) []) n
        (unsubscribe_loop-calm n ids [] w h))
