-- ===== src/Server/Leaving.antt =====
-- rpcserver.go, lines 199 to 225: the loop of UnsubscribeShard.
use sharding_p2p_poc.Prelude.{
  ℕ, ◌<◌, ℤ, pos, Bytes, bytes_eq, nat_eq, bytes_beq_iff, nat_beq_iff, contains, ◌==◌, not, ◌&&◌,
  ◌≡◌, ◌≢◌, refl, arith, List, [], ◌∷◌, map, All, Bool-cases, inl, inr,
}
use sharding_p2p_poc.Outcome.{ok, panic}
use sharding_p2p_poc.Shards.{num_shards}
use sharding_p2p_poc.PrefTable.View.{listens, IsTable}
use sharding_p2p_poc.Network.{Network}
use sharding_p2p_poc.State.{Node}
use sharding_p2p_poc.Discovery.{Discovery}
use sharding_p2p_poc.Discovery.Laws.{ShardDiscovery}
use sharding_p2p_poc.Manager.{unlisten_shard}
use sharding_p2p_poc.Manager.Unlisten.{unlisten_shard-not_listened, unlisten_shard-Leaves}
use sharding_p2p_poc.Server.Preferences.{unsubscribe_loop, unsubscribe_shard}
use sharding_p2p_poc.Server.Loops.{Done, going_on-Done, dropped-Done}

module _ (net : Network) (d : Discovery (Node net)) where
  open net use {host_id}

  -- The table is well formed, and the host has left the shards `ids`.
  pub record Left (n : Node net) (ids : List ℕ) (n' : Node net) : Type 0 where
    pub is_table : IsTable n'.shard_pref_table
    pub relation :
        (p : Bytes) (t : ℕ)
        → listens n'.shard_pref_table p t
          ≡ (not (host_id == p && contains ids t) && listens n.shard_pref_table p t)

  -- One call, whatever its outcome.
  pub unlisten_shard-Left :
      ShardDiscovery net d
      → (n : Node net) (s : ℕ) → IsTable n.shard_pref_table
      → s < num_shards
      → Left n (s ∷ []) (unlisten_shard net d (pos s) n).1
  unfolding contains
  unlisten_shard-Left laws n s w h = elim (Bool-cases (listens n.shard_pref_table host_id s)) [
    | inl on ↦
        let l = unlisten_shard-Leaves net d laws n s w h on in
        record { is_table = l.is_table; relation = λ p t. ground (arith, l.relation p t) }
    | inr off ↦ rw (unlisten_shard-not_listened net d laws n s w h off) (record {
      is_table = w;
      relation = λ p t. ground (arith, off, bytes_beq_iff host_id p, nat_beq_iff s t);
    })
  ]

  Left-trans :
      {a b c : Node net} (s : ℕ) (ids : List ℕ)
      → Left a (s ∷ []) b
      → Left b ids c
      → Left a (s ∷ ids) c
  unfolding contains
  Left-trans s ids u v = record {
    is_table = v.is_table;
    relation = λ p t. ground (arith, u.relation p t, v.relation p t);
  }

  unsubscribe_loop-Left :
      ShardDiscovery net d
      → (n : Node net) (ids : List ℕ) (done : List ℤ) → IsTable n.shard_pref_table
      → All (λ s. s < num_shards) ids
      → (unsubscribe_loop net d (map pos ids) done n).0 ≢ panic
      → Done (Left n ids) (unsubscribe_loop net d (map pos ids) done n)
  unfolding unsubscribe_loop contains
  unsubscribe_loop-Left laws n [] done w h p =
      ((done, refl), record { is_table = w; relation = λ q t. ground arith })
  unsubscribe_loop-Left laws n (s ∷ ids) done w h p =
      let j = unlisten_shard-Left laws n s w h.0 in
      let r = unlisten_shard net d (pos s) n in
      going_on-Done (Left n (s ∷ ids)) (λ done'. unsubscribe_loop net d (map pos ids) done') (pos s)
        done r.0 r.1
        (λ done' q.
          let l = unsubscribe_loop-Left laws r.1 ids done' j.is_table h.1 q in
          (l.0, Left-trans s ids j l.1))
        p

  pub unsubscribe_shard-Left :
      ShardDiscovery net d
      → (n : Node net) (ids : List ℕ) → IsTable n.shard_pref_table
      → All (λ s. s < num_shards) ids
      → (unsubscribe_shard net d (map pos ids) n).0 ≢ panic
      → ((unsubscribe_shard net d (map pos ids) n).0 ≡ ok tt)
        × Left n ids (unsubscribe_shard net d (map pos ids) n).1
  unfolding unsubscribe_shard
  unsubscribe_shard-Left laws n ids w h p =
      dropped-Done (Left n ids) (unsubscribe_loop net d (map pos ids) []) n
        (unsubscribe_loop-Left laws n ids [] w h) p
