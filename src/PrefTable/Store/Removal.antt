-- ===== src/PrefTable/Store/Removal.antt =====
-- RemovePeerListeningShard, against the operation on values.
use sharding_p2p_poc.Prelude.{
  ℤ, Bytes, bytes_eq, Bool, true, false, ◌≡◌, refl, arith, none, some, Option-cases, inl, inr,
}
use sharding_p2p_poc.Prelude.Assoc.{lookup, insert}
use sharding_p2p_poc.Outcome.{Outcome, ok, returns, fails, panics, ending, ◌>>=◌}
use sharding_p2p_poc.Shards.{ListeningShards, is_shard_set, unset_shard}
use sharding_p2p_poc.PrefTable.{
  ShardPrefTable, remove_peer_listening_shard, is_peer_recorded, is_peer_listening_shard,
}
use sharding_p2p_poc.PrefTable.Store.{Store, cell, remove_alone}
use sharding_p2p_poc.PrefTable.Store.Refinement.{IsStore, Refines, write-Refines}
use sharding_p2p_poc.PrefTable.Store.Calls.{Matches}

-- The removal of values, by the entry that it finds
remove_peer_listening_shard-absent :
    (n : ShardPrefTable) (peer : Bytes) (id : ℤ)
    → lookup peer n.shard_pref_map ≡ none
    → remove_peer_listening_shard n peer id ≡ ok n
unfolding remove_peer_listening_shard is_peer_recorded
remove_peer_listening_shard-absent n peer id e = ground (arith, e)

unset_in :
    (n : ShardPrefTable) (peer : Bytes) (id : ℤ) → ListeningShards → Bool → Outcome ShardPrefTable
unset_in n peer id ls false = ok n
unset_in n peer id ls true =
    unset_shard ls id >>= λ ls'. ok (record { shard_pref_map = insert peer ls' n.shard_pref_map })

remove_peer_listening_shard-entry :
    (n : ShardPrefTable) (peer : Bytes) (id : ℤ) (ls : ListeningShards)
    → lookup peer n.shard_pref_map ≡ some ls
    → remove_peer_listening_shard n peer id ≡ (is_shard_set ls id >>= unset_in n peer id ls)
unfolding remove_peer_listening_shard is_peer_recorded is_peer_listening_shard unset_in
remove_peer_listening_shard-entry n peer id ls e = elim (ending (is_shard_set ls id)) [
  | fails err q ↦ ground (arith, e, q)
  | panics q ↦ ground (arith, e, q)
  | returns false q ↦ ground (arith, e, q)
  | returns true q ↦ elim (ending (unset_shard ls id)) [
    | returns ls' u ↦ ground (arith, e, q, u)
    | fails err u ↦ ground (arith, e, q, u)
    | panics u ↦ ground (arith, e, q, u)
  ]
]

-- On a table of pointers without sharing that holds the entries of a table of values,
-- RemovePeerListeningShard, for any ID, does what the operation on values does: it gives the same
-- table, with no sharing, the same error and an unchanged table, or a panic.
pub remove_alone-Matches :
    (st : Store) (n : ShardPrefTable) (peer : Bytes) (id : ℤ)
    → IsStore st
    → Refines st n
    → Matches (remove_alone peer id st) (remove_peer_listening_shard n peer id) n
unfolding remove_alone unset_in
remove_alone-Matches st n peer id w r = elim (Option-cases (lookup peer st.shard_pref_map)) [
  | inl absent ↦
      rw
        (
          absent,
          remove_peer_listening_shard-absent n peer id (ground (arith, absent, r.entries peer)),
        )
        (w, r)
  | inr (p, at) ↦
      let ls = cell st.cells p in
      let by_value =
        remove_peer_listening_shard-entry n peer id ls (ground (arith, at, r.entries peer)) in
      elim (ending (is_shard_set ls id)) [
        | fails err q ↦ rw (at, by_value, q) (refl, w, r)
        | panics q ↦ rw (at, by_value, q) tt
        | returns false q ↦ rw (at, by_value, q) (w, r)
        | returns true q ↦ elim (ending (unset_shard ls id)) [
          | returns ls' u ↦ rw (at, by_value, q, u) (write-Refines st n peer p ls' w r at)
          | fails err u ↦ rw (at, by_value, q, u) (refl, w, r)
          | panics u ↦ rw (at, by_value, q, u) tt
        ]
      ]
]
