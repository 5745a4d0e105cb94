-- ===== src/Tests/Store.antt =====
-- shardpreftable.go: calls on a table with pointers.
use sharding_p2p_poc.Prelude.{
  ℕ, zero, suc, ◌<◌, ◌/◌, ◌≢◌, some, Bytes, pos, bytes_eq, bytes_beq, bytes_beq_iff, ◌≡◌, refl,
  arith, [], ◌∷◌, none,
}
use sharding_p2p_poc.Prelude.Assoc.{lookup}
use sharding_p2p_poc.Outcome.{Outcome}
use sharding_p2p_poc.PrefTable.{
  ShardPrefTable, add_peer_listening_shard, remove_peer_listening_shard,
}
use sharding_p2p_poc.PrefTable.Store.{Store, reading, add_step, add_alone, remove_alone, loaded}
use sharding_p2p_poc.PrefTable.Store.Refinement.{IsStore, Refines}
use sharding_p2p_poc.PrefTable.Store.Calls.{Matches, Returns, add_alone-Matches}
use sharding_p2p_poc.PrefTable.Store.Removal.{remove_alone-Matches}
use sharding_p2p_poc.PrefTable.Store.Race.{Overwritten, in_turns, lost_update}
use sharding_p2p_poc.PrefTable.Store.LostBit.{Loses, lost_bit}
use sharding_p2p_poc.PrefTable.Store.Recorded.{System, Ready, Reach, start, pick, picked}
use sharding_p2p_poc.PrefTable.Store.Concurrent.{Entered, steps_left, concurrent_adds-Entered}
use sharding_p2p_poc.Shards.{num_shards, shard_id_to_bit_index}
use sharding_p2p_poc.Fixtures.{alice, bob, some_shards, some_shards-IsWellFormed}

-- Alice listens to the shards 0, 5 and 42.
abbrev store : Store
store = record { cells = some_shards ∷ []; shard_pref_map = (alice, 0) ∷ [] }

abbrev alices : ShardPrefTable
alices = record { shard_pref_map = (alice, some_shards) ∷ [] }

store-IsStore : IsStore store
unfolding lookup
store-IsStore = record {
  in_range = λ q p e. ground (arith, e);
  apart = λ q r p e i. ground (arith, e, i, bytes_beq_iff alice q, bytes_beq_iff alice r);
}

store-Refines : Refines store alices
unfolding lookup
store-Refines = record { entries = λ q. ground arith }

add_alone-Matches_example :
    (r : Outcome (Unit {0}) × Store) × Returns (add_alone bob (pos 42) store) r
    × Matches r (add_peer_listening_shard alices bob (pos 42)) alices
add_alone-Matches_example = add_alone-Matches store alices bob (pos 42) store-IsStore store-Refines

remove_alone-Matches_example :
    Matches
      (remove_alone alice (pos 42) store)
      (remove_peer_listening_shard alices alice (pos 42))
      alices
remove_alone-Matches_example =
    remove_alone-Matches store alices alice (pos 42) store-IsStore store-Refines

bob_absent : lookup bob store.shard_pref_map ≡ none
unfolding lookup bytes_beq
bob_absent = refl

lost_update_example : Overwritten bob 42 (in_turns bob (pos 7) (pos 42) store)
lost_update_example = lost_update store bob 7 42 bob_absent (omega arith) (omega arith)

alice_found : lookup alice store.shard_pref_map ≡ some 0
unfolding lookup bytes_beq
alice_found = refl

lost_bit_example : Loses alice 9 some_shards (in_turns alice (pos 8) (pos 9) store)
lost_bit_example =
    lost_bit store alice 0 alice_found (omega arith) 8 9 some_shards-IsWellFormed (omega arith)
      (omega arith) refl

-- Two calls for Alice, of the shards 7 and 9
abbrev new_shards : ℕ → ℕ
new_shards zero = 7
new_shards (suc i) = 9

abbrev turn : ℕ → System → System
turn = picked 2 (λ i. alice) new_shards

-- They take turns.
abbrev taken : System
taken = turn 1 (
    turn 0 (
      turn 1 (
        turn 0
          (turn 1 (turn 0 (turn 1 (turn 0 (record { store = store; place = λ i. reading }))))))))

taken-Reach : Reach 2 (λ i. alice) new_shards store taken
taken-Reach =
    pick
      (pick
        (pick
          (pick
            (pick (pick (pick (pick start 0 (omega arith)) 1 (omega arith)) 0 (omega arith)) 1
              (omega arith))
            0 (omega arith))
          1 (omega arith))
        0 (omega arith))
      1 (omega arith)

store-Ready : Ready 2 (λ i. alice) new_shards store
unfolding lookup
store-Ready = record {
  is_store = store-IsStore;
  forms = λ q p e. rw (some_zero q p e) some_shards-IsWellFormed;
  recorded = λ i h. (0, alice_found);
  in_range = small_shards;
  bytes_apart = other_bytes;
}
  where
    some_zero : (q : Bytes) (p : ℕ) → lookup q store.shard_pref_map ≡ some p → p ≡ 0
    some_zero q p e = ground (arith, e)

    other_bytes :
        (i j : ℕ) → i < 2 → j < 2 → i ≢ j → alice ≡ alice → new_shards i / 8 ≢ new_shards j / 8
    other_bytes zero zero h h' ne e = absurd (ne refl)
    other_bytes zero (suc j) h h' ne e = λ q. ground (arith, q)
    other_bytes (suc i) zero h h' ne e = λ q. ground (arith, q)
    other_bytes (suc i) (suc j) h h' ne e = absurd (ne (omega (arith, h, h')))

    small_shards : (i : ℕ) → i < 2 → new_shards i < num_shards
    small_shards zero h = omega arith
    small_shards (suc i) h = omega arith

taken_done : (i : ℕ) → i < 2 → steps_left (taken.place i) ≡ 0
unfolding add_step lookup bytes_beq loaded shard_id_to_bit_index
taken_done zero h = refl
taken_done (suc zero) h = refl
taken_done (suc (suc i)) h = absurd (omega arith)

concurrent_adds-Entered_example : Entered 2 (λ i. alice) new_shards store taken
concurrent_adds-Entered_example =
    concurrent_adds-Entered 2 (λ i. alice) new_shards store taken store-Ready taken-Reach taken_done
