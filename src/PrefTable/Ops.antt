-- ===== src/PrefTable/Ops.antt =====
-- shardpreftable.go, lines 105 to 180: the operations of the table and those of the relation.
use sharding_p2p_poc.Prelude.{
  ℕ, pos, ◌<◌, ◌≤◌, Bytes, bytes_eq, Bool, true, false, ◌≡◌, refl, subst, ◌⊎◌, ap, arith, some,
  ◌==◌, inl, inr, Option-cases, Bool-cases, bytes_beq_iff, if◌then◌else◌,
}
use sharding_p2p_poc.Prelude.Assoc.{Assoc, lookup, insert, lookup-insert, insert-Distinct}
use sharding_p2p_poc.Outcome.{Outcome, ok, fail, ◌>>=◌, invalid_shard_id}
use sharding_p2p_poc.Shards.{ListeningShards, num_shards}
use sharding_p2p_poc.Shards.View.{
  has_shard, IsWellFormed, Updates, is_shard_set-valid, set_shard-Updates, unset_shard-Updates,
  large_id-refused, new_listening_shards-IsWellFormed, has_shard-new,
}
use sharding_p2p_poc.Shards.View.Listing.{shard_list, get_shards_lem, shard_list-nobody}
use sharding_p2p_poc.PrefTable.{
  ShardPrefTable, new_shard_pref_table, is_peer_recorded, is_peer_listening_shard,
  add_peer_listening_shard, remove_peer_listening_shard, get_peer_listening_shard_slice,
  set_peer_listening_shard, get_peer_listening_shard, entry_or_new,
}
use sharding_p2p_poc.PrefTable.View.{Relation, join, leave, listens, IsTable, Holds}

-- A new table is well formed and holds the empty relation.
pub new_shard_pref_table-IsTable : IsTable new_shard_pref_table
unfolding new_shard_pref_table lookup
new_shard_pref_table-IsTable = record { distinct = tt; entries = λ p ls e. cc }

pub listens-new : (p : Bytes) (t : ℕ) → listens new_shard_pref_table p t ≡ false
unfolding new_shard_pref_table lookup
listens-new p t = refl

-- Writing one entry.
lookup_written :
    (m : Assoc Bytes ListeningShards) (peer p : Bytes) (ls l : ListeningShards)
    → lookup p (insert peer ls m) ≡ some l
    → (ls ≡ l) ⊎ (lookup p m ≡ some l)
lookup_written m peer p ls l e = elim (Bool-cases (peer == p)) [
  | inl q ↦ inl (ground (arith, lookup-insert peer p ls m, q, e))
  | inr q ↦ inr (ground (arith, lookup-insert peer p ls m, q, e))
]

insert-IsTable :
    (n : ShardPrefTable) (peer : Bytes) (ls : ListeningShards)
    → IsTable n
    → IsWellFormed ls
    → IsTable (record { shard_pref_map = insert peer ls n.shard_pref_map })
insert-IsTable n peer ls w h = record {
  distinct = insert-Distinct peer ls n.shard_pref_map w.distinct;
  entries = λ p l e. elim (lookup_written n.shard_pref_map peer p ls l e) [
    | inl q ↦ subst IsWellFormed q h
    | inr q ↦ w.entries p l q
  ];
}

-- An update of a peer's entry changes the relation at that peer only.
update-Holds :
    (n : ShardPrefTable) (peer : Bytes) (ls : ListeningShards)
    → IsTable n
    → {bits : ℕ → Bool} {r : Outcome ListeningShards} → Updates ls bits r
    → (after : Relation)
    → ((p : Bytes) (t : ℕ) → (if peer == p then bits t else listens n p t) ≡ after p t)
    → Holds (do ls' ← r; ok (record { shard_pref_map = insert peer ls' n.shard_pref_map })) after
update-Holds n peer ls w u after h = record {
  result = record { shard_pref_map = insert peer u.result n.shard_pref_map };
  returned = rw u.returned;
  is_table = insert-IsTable n peer u.result w u.well_formed;
  relation = λ p t. ground (arith, lookup-insert peer p u.result n.shard_pref_map, h p t, u.bits t);
}

module _ (n : ShardPrefTable) (peer : Bytes) where
  -- A shard from 100 on is refused with the error of its ID, and nobody listens to it.
  pub add_peer_listening_shard-large :
      (s : ℕ)
      → num_shards ≤ s
      → add_peer_listening_shard n peer (pos s) ≡ fail (invalid_shard_id (pos s))
  unfolding add_peer_listening_shard
  add_peer_listening_shard-large s h = rw (large_id-refused (entry_or_new n peer) s h).0

  pub is_peer_listening_shard-large :
      (s : ℕ) → num_shards ≤ s → is_peer_listening_shard n peer (pos s) ≡ ok false
  unfolding is_peer_listening_shard is_peer_recorded
  is_peer_listening_shard-large s h = elim (Option-cases (lookup peer n.shard_pref_map)) [
    | inl e ↦ ground (arith, e)
    | inr (ls, e) ↦ ground (arith, e, large_id-refused ls s h)
  ]

  -- The entry of a peer, or a new string.
  pub get_peer_listening_shard_lem : get_peer_listening_shard n peer ≡ ok (entry_or_new n peer)
  unfolding get_peer_listening_shard is_peer_recorded
  get_peer_listening_shard_lem = ground arith

module _ (n : ShardPrefTable) (peer : Bytes) (w : IsTable n) where
  pub entry_or_new-IsWellFormed : IsWellFormed (entry_or_new n peer)
  entry_or_new-IsWellFormed = elim (Option-cases (lookup peer n.shard_pref_map)) [
    | inl e ↦ rw (e, entry_or_new) new_listening_shards-IsWellFormed
    | inr (ls, e) ↦ rw (e, entry_or_new) (w.entries peer ls e)
  ]

  pub entry_or_new-bits : (t : ℕ) → has_shard (entry_or_new n peer) t ≡ listens n peer t
  entry_or_new-bits t = ground (arith, has_shard-new t)

  same_peer : (p : Bytes) (t : ℕ) → (peer == p) ≡ true → listens n peer t ≡ listens n p t
  same_peer p t e = ap (λ q. listens n q t) ((bytes_beq_iff peer p).0 e)

  -- On a well-formed table, for a shard below 100, AddPeerListeningShard returns a well-formed
  -- table in which the peer listens to the shard, and every other pair is as before.
  pub add_peer_listening_shard-Holds :
      (s : ℕ)
      → s < num_shards
      → Holds (add_peer_listening_shard n peer (pos s)) (join peer s (listens n))
  unfolding add_peer_listening_shard
  add_peer_listening_shard-Holds s h =
      update-Holds n peer (entry_or_new n peer) w
        (set_shard-Updates (entry_or_new n peer) s entry_or_new-IsWellFormed h)
        (join peer s (listens n)) λ p t. ground (arith, entry_or_new-bits t, same_peer p t)

  -- The test of a pair returns whether the relation holds it.
  pub is_peer_listening_shard_lem :
      (s : ℕ) → s < num_shards → is_peer_listening_shard n peer (pos s) ≡ ok (listens n peer s)
  unfolding is_peer_listening_shard is_peer_recorded
  is_peer_listening_shard_lem s h = elim (Option-cases (lookup peer n.shard_pref_map)) [
    | inl e ↦ ground (arith, e)
    | inr (ls, e) ↦ ground (arith, e, is_shard_set-valid ls s (w.entries peer ls e) h)
  ]

  unchanged :
      (s : ℕ)
      → listens n peer s ≡ false
      → (r : Outcome ShardPrefTable) → r ≡ ok n
      → Holds r (leave peer s (listens n))
  unchanged s off r e = record {
    result = n;
    returned = e;
    is_table = w;
    relation = λ p t. ground (arith, same_peer p s);
  }

  -- On a well-formed table, for a shard below 100, RemovePeerListeningShard returns a well-formed
  -- table in which the peer does not listen to the shard, and every other pair is as before.
  pub remove_peer_listening_shard-Holds :
      (s : ℕ)
      → s < num_shards
      → Holds (remove_peer_listening_shard n peer (pos s)) (leave peer s (listens n))
  unfolding remove_peer_listening_shard is_peer_recorded
  remove_peer_listening_shard-Holds s h = elim (Option-cases (lookup peer n.shard_pref_map)) [
    | inl e ↦ unchanged s (ground (arith, e)) _ (ground (arith, e))
    | inr (ls, e) ↦ elim (Bool-cases (listens n peer s)) [
      | inl on ↦
          let seen = is_peer_listening_shard_lem s h in
          subst (λ r. Holds r (leave peer s (listens n))) (ground (arith, e, seen, on))
            (update-Holds n peer ls w (unset_shard-Updates ls s (w.entries peer ls e) h)
              (leave peer s (listens n)) (λ p t. ground (arith, e, same_peer p t)))
      | inr off ↦ unchanged s off _ (ground (arith, e, is_peer_listening_shard_lem s h))
    ]
  ]

  -- On a well-formed table, GetPeerListeningShardSlice returns the shards below 100 that the peer
  -- listens to, in ascending order.
  pub get_peer_listening_shard_slice_lem :
      get_peer_listening_shard_slice n peer ≡ ok (shard_list (listens n peer))
  unfolding get_peer_listening_shard_slice is_peer_recorded
  get_peer_listening_shard_slice_lem = elim (Option-cases (lookup peer n.shard_pref_map)) [
    | inl e ↦ ground (arith, e, shard_list-nobody (listens n peer) (λ t. ground (arith, e)))
    | inr (ls, e) ↦ ground (arith, e, get_shards_lem ls (w.entries peer ls e))
  ]

  -- A received string replaces the entry of its peer and no other.
  pub set_peer_listening_shard-IsTable :
      (ls : ListeningShards) → IsWellFormed ls → IsTable (set_peer_listening_shard n peer ls)
  unfolding set_peer_listening_shard
  set_peer_listening_shard-IsTable ls h = insert-IsTable n peer ls w h

pub listens-set_peer_listening_shard :
    (n : ShardPrefTable) (peer : Bytes) (ls : ListeningShards) (p : Bytes) (t : ℕ)
    → listens (set_peer_listening_shard n peer ls) p t
      ≡ (if peer == p then has_shard ls t else listens n p t)
unfolding set_peer_listening_shard
listens-set_peer_listening_shard n peer ls p t =
    ground (arith, lookup-insert peer p ls n.shard_pref_map)
