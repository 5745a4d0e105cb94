-- ===== src/Server/Laws.antt =====
-- rpcserver.go, lines 170 to 197 and 248 to 300: the loops of SubscribeShard and BroadcastCollation.
use sharding_p2p_poc.Prelude.{
  ℕ, zero, suc, ◌<◌, ℤ, pos, negsuc, Bytes, bytes_eq, nat_eq, bytes_beq_iff, nat_beq_iff, contains,
  ◌==◌, ◌&&◌, ◌||◌, ◌≡◌, ◌≢◌, refl, arith, List, [], ◌∷◌, map, All, Bool-cases, inl, inr,
}
use sharding_p2p_poc.Outcome.{ok, panic}
use sharding_p2p_poc.Shards.{num_shards}
use sharding_p2p_poc.PrefTable.View.{listens, IsTable}
use sharding_p2p_poc.Messages.{Codecs}
use sharding_p2p_poc.Network.{Network}
use sharding_p2p_poc.State.{Node}
use sharding_p2p_poc.Discovery.{Discovery}
use sharding_p2p_poc.Discovery.Laws.{ShardDiscovery}
use sharding_p2p_poc.Manager.{listen_shard}
use sharding_p2p_poc.Manager.Listen.{listen_shard-listened, listen_shard-Joins}
use sharding_p2p_poc.Server.Preferences.{subscribe_loop, subscribe_shard}
use sharding_p2p_poc.Server.Loops.{Done, going_on-Done, dropped-Done}
use sharding_p2p_poc.Server.Collations.{broadcast_loop, broadcast_collations}

module _ (net : Network) (d : Discovery (Node net)) where
  open net use {host_id}

  -- The table is well formed, and the host has joined the shards `ids`.
  pub record Joined (n : Node net) (ids : List ℕ) (n' : Node net) : Type 0 where
    pub is_table : IsTable n'.shard_pref_table
    pub relation :
        (p : Bytes) (t : ℕ)
        → listens n'.shard_pref_table p t
          ≡ ((host_id == p && contains ids t) || listens n.shard_pref_table p t)

  -- One call, whatever its outcome.
  pub listen_shard-Joined :
      ShardDiscovery net d
      → (n : Node net) (num : ℤ) (s : ℕ) → IsTable n.shard_pref_table
      → s < num_shards
      → Joined n (s ∷ []) (listen_shard net d num (pos s) n).1
  unfolding contains
  listen_shard-Joined laws n num s w h = elim (Bool-cases (listens n.shard_pref_table host_id s)) [
    | inl on ↦ rw (listen_shard-listened net d laws n num s w h on) (record {
      is_table = w;
      relation = λ p t. ground (arith, on, bytes_beq_iff host_id p, nat_beq_iff s t);
    })
    | inr off ↦
        let j = listen_shard-Joins net d laws n num s w h off in
        record { is_table = j.is_table; relation = λ p t. ground (arith, j.relation p t) }
  ]

  Joined-trans :
      {a b c : Node net} (s : ℕ) (ids : List ℕ)
      → Joined a (s ∷ []) b
      → Joined b ids c
      → Joined a (s ∷ ids) c
  unfolding contains
  Joined-trans s ids u v = record {
    is_table = v.is_table;
    relation = λ p t. ground (arith, u.relation p t, v.relation p t);
  }

  subscribe_loop-Joined :
      ShardDiscovery net d
      → (n : Node net) (num : ℤ) (ids : List ℕ) (done : List ℤ) → IsTable n.shard_pref_table
      → All (λ s. s < num_shards) ids
      → (subscribe_loop net d num (map pos ids) done n).0 ≢ panic
      → Done (Joined n ids) (subscribe_loop net d num (map pos ids) done n)
  unfolding subscribe_loop contains
  subscribe_loop-Joined laws n num [] done w h p =
      ((done, refl), record { is_table = w; relation = λ q t. ground arith })
  subscribe_loop-Joined laws n num (s ∷ ids) done w h p =
      let j = listen_shard-Joined laws n num s w h.0 in
      let r = listen_shard net d num (pos s) n in
      going_on-Done (Joined n (s ∷ ids)) (λ done'. subscribe_loop net d num (map pos ids) done')
        (pos s) done r.0 r.1
        (λ done' q.
          let l = subscribe_loop-Joined laws r.1 num ids done' j.is_table h.1 q in
          (l.0, Joined-trans s ids j l.1))
        p

  -- For a discovery service that keeps its contract, a well-formed table and shards below 100: if
  -- SubscribeShard does not panic, then it returns without an error, whatever the calls of
  -- ListenShard returned, and leaves a well-formed table in which the host listens to each of the
  -- shards and every other pair is as before.
  pub subscribe_shard-Joined :
      ShardDiscovery net d
      → (n : Node net) (num : ℤ) (ids : List ℕ) → IsTable n.shard_pref_table
      → All (λ s. s < num_shards) ids
      → (subscribe_shard net d num (map pos ids) n).0 ≢ panic
      → ((subscribe_shard net d num (map pos ids) n).0 ≡ ok tt)
        × Joined n ids (subscribe_shard net d num (map pos ids) n).1
  unfolding subscribe_shard
  subscribe_shard-Joined laws n num ids w h p =
      dropped-Done (Joined n ids) (subscribe_loop net d num (map pos ids) []) n
        (subscribe_loop-Joined laws n num ids [] w h) p

-- BroadcastCollation of at least one collation with a negative size panics, and nothing changes.
pub negative_size :
    (net : Network) (codecs : Codecs) (n : Node net) (shard_id : ℤ) (number k : ℕ)
    → 0 < number
    → broadcast_collations net codecs shard_id (pos number) (negsuc k) n ≡ (panic, n)
unfolding broadcast_collations broadcast_loop
negative_size net codecs n shard_id zero k h = elim h [ ]
negative_size net codecs n shard_id (suc number) k h = refl
