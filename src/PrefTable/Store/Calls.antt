-- ===== src/PrefTable/Store/Calls.antt =====
-- The calls that change the table, each on its own, against the table of values.
use sharding_p2p_poc.Prelude.{
  ℕ, suc, ◌<◌, ℤ, Bytes, bytes_eq, bytes_beq_iff, ◌≡◌, refl, sym, subst, ap, ◌∙◌, arith, List, [],
  ◌∷◌, ◌++◌, some, length, length-append, length-set, set, Option-cases, inl, inr,
}
use sharding_p2p_poc.Prelude.Assoc.{lookup, insert, lookup-insert}
use sharding_p2p_poc.Outcome.{Outcome, ok, fail, panic, returns, fails, panics, ending, ◌>>=◌}
use sharding_p2p_poc.Shards.{ListeningShards, new_listening_shards, set_shard}
use sharding_p2p_poc.PrefTable.{
  ShardPrefTable, add_peer_listening_shard, set_peer_listening_shard, entry_or_new,
}
use sharding_p2p_poc.PrefTable.Store.{
  Store, cell, Adding, added, add_step, add_alone, set_alone, loaded, with_byte,
}
use sharding_p2p_poc.PrefTable.Store.Loads.{set_shard-loaded}
use sharding_p2p_poc.PrefTable.Store.Refinement.{
  IsStore, Refines, value, get_or-set_self, get_or-set_ne, get_or-old, get_or-last, write-Refines,
  fresh-Refines,
}

-- The same, with the set in the new cell named
fresh_set-Refines :
    (st : Store) (n : ShardPrefTable) (peer : Bytes) (cells : List ListeningShards)
    (ls : ListeningShards)
    → IsStore st
    → Refines st n
    → length cells ≡ suc (length st.cells)
    → ((p : ℕ) → p < length st.cells → cell cells p ≡ cell st.cells p)
    → cell cells (length st.cells) ≡ ls
    → IsStore
        (record { cells = cells; shard_pref_map = insert peer (length st.cells) st.shard_pref_map })
      × Refines
          (record {
            cells = cells;
            shard_pref_map = insert peer (length st.cells) st.shard_pref_map;
          })
          (record { shard_pref_map = insert peer ls n.shard_pref_map })
fresh_set-Refines st n peer cells ls w r long old new =
    let (is_store, refines) = fresh-Refines st n peer cells w r long old in
    (
      is_store,
      subst
          (λ l.
            Refines
              (record {
                cells = cells;
                shard_pref_map = insert peer (length st.cells) st.shard_pref_map;
              })
              (record { shard_pref_map = insert peer l n.shard_pref_map }))
          new refines,
    )

pub set_alone-Refines :
    (st : Store) (n : ShardPrefTable) (peer : Bytes) (ls : ListeningShards)
    → IsStore st
    → Refines st n
    → IsStore (set_alone peer ls st)
      × Refines (set_alone peer ls st) (set_peer_listening_shard n peer ls)
unfolding set_alone set_peer_listening_shard
set_alone-Refines st n peer ls w r =
    fresh_set-Refines st n peer (st.cells ++ ls ∷ []) ls w r
      (omega (arith, length-append st.cells (ls ∷ [])))
      (λ p h. get_or-old st.cells p ls new_listening_shards h)
      (get_or-last st.cells ls new_listening_shards)

-- What a call has done to the store, next to the outcome of the operation on values: the same
-- table, the same error and no change, or a panic.
abbrev pub Matches : Outcome (Unit {0}) × Store → Outcome ShardPrefTable → ShardPrefTable → Type 0
Matches (ok u, st) (ok t) n = IsStore st × Refines st t
Matches (fail e, st) (fail d) n = (e ≡ d) × IsStore st × Refines st n
Matches (panic, st) panic n = Unit
Matches r o n = ⊥

-- The call has returned.
abbrev pub Returns : Adding × Store → Outcome (Unit {0}) × Store → Type 0
Returns r s = r ≡ (added s.0, s.1)

-- A map that is written with what it holds
again-Refines :
    (st : Store) (n : ShardPrefTable) (peer : Bytes) (p : ℕ)
    → lookup peer st.shard_pref_map ≡ some p
    → IsStore st × Refines st n
    → IsStore (record st { shard_pref_map = insert peer p st.shard_pref_map })
      × Refines (record st { shard_pref_map = insert peer p st.shard_pref_map }) n
again-Refines st n peer p e w = (
  record {
    in_range = λ q k h. w.0.in_range q k (sym (same q) ∙ h);
    apart = λ q t k h i. w.0.apart q t k (sym (same q) ∙ h) (sym (same t) ∙ i);
  },
  record { entries = λ q. rw (same q) (w.1.entries q) },
)
  where
    same : (q : Bytes) → lookup q (insert peer p st.shard_pref_map) ≡ lookup q st.shard_pref_map
    same q = ground (arith, e, lookup-insert peer q p st.shard_pref_map, bytes_beq_iff peer q)

-- The cell of a set that nobody holds yet
fresh_cell-Refines :
    (st : Store) (n : ShardPrefTable) (ls : ListeningShards)
    → IsStore st
    → Refines st n
    → IsStore (record st { cells = st.cells ++ ls ∷ [] })
      × Refines (record st { cells = st.cells ++ ls ∷ [] }) n
fresh_cell-Refines st n ls w r = (
  record {
    in_range = λ q k h. omega (arith, length-append st.cells (ls ∷ []), w.in_range q k h);
    apart = w.apart;
  },
  record { entries = entries },
)
  where
    entries :
        (q : Bytes)
        → value (st.cells ++ ls ∷ []) (lookup q st.shard_pref_map) ≡ lookup q n.shard_pref_map
    entries q = elim (Option-cases (lookup q st.shard_pref_map)) [
      | inl absent ↦ ground (arith, absent, r.entries q)
      | inr (k, at) ↦ ground (
        arith,
        at,
        r.entries q,
        get_or-old st.cells k ls new_listening_shards (w.in_range q k at),
      )
    ]

-- The operation on values, by the entry that it finds
add_peer_listening_shard-entry :
    (n : ShardPrefTable) (peer : Bytes) (id : ℤ) (ls : ListeningShards)
    → entry_or_new n peer ≡ ls
    → add_peer_listening_shard n peer id ≡ (
        set_shard ls id >>= λ ls'.
        ok (record { shard_pref_map = insert peer ls' n.shard_pref_map }))
unfolding add_peer_listening_shard
add_peer_listening_shard-entry n peer id ls e =
    ap
      (λ l.
        set_shard l id >>= λ ls'. ok (record { shard_pref_map = insert peer ls' n.shard_pref_map }))
      e

-- On a table of pointers without sharing that holds the entries of a table of values, a call of
-- AddPeerListeningShard that nobody interrupts returns as the operation on values does, for any
-- ID: with the same table, with no sharing, with the same error and an unchanged table, or by a
-- panic.
pub add_alone-Matches :
    (st : Store) (n : ShardPrefTable) (peer : Bytes) (id : ℤ)
    → IsStore st
    → Refines st n
    → (r : Outcome (Unit {0}) × Store) × Returns (add_alone peer id st) r
      × Matches r (add_peer_listening_shard n peer id) n
unfolding add_alone add_step
add_alone-Matches st n peer id w r = elim (Option-cases (lookup peer st.shard_pref_map)) [
  | inl absent ↦
      let by_value =
        add_peer_listening_shard-entry n peer id new_listening_shards
          (ground (arith, absent, r.entries peer)) in
      let more = st.cells ++ new_listening_shards ∷ [] in
      let long : length more ≡ suc (length st.cells) =
        omega (arith, length-append st.cells (new_listening_shards ∷ [])) in
      let last = get_or-last st.cells new_listening_shards new_listening_shards in
      let by_byte = set_shard-loaded new_listening_shards id in
      elim (ending (loaded new_listening_shards id)) [
        | returns b e ↦
            let ls = with_byte new_listening_shards b.0 b.1 in
            (
              (
                ok tt,
                record {
                  cells = set more (length st.cells) ls;
                  shard_pref_map = insert peer (length st.cells) st.shard_pref_map;
                },
              ),
              rw (absent, last, e, last),
              rw (by_value, by_byte, e)
                  (fresh_set-Refines st n peer (set more (length st.cells) ls) ls w r
                    (length-set more (length st.cells) ls ∙ long)
                    (λ k h.
                      get_or-set_ne more (length st.cells) k ls new_listening_shards
                        (λ same. omega (arith, same, h))
                      ∙ get_or-old st.cells k new_listening_shards new_listening_shards h)
                    (get_or-set_self more (length st.cells) ls new_listening_shards
                      (omega (arith, long)))),
            )
        | fails err e ↦ (
          (fail err, record st { cells = more }),
          rw (absent, last, e),
          rw (by_value, by_byte, e)
              (let kept = fresh_cell-Refines st n new_listening_shards w r in
                (refl, kept.0, kept.1)),
        )
        | panics e ↦ (
          (panic, record st { cells = more }),
          rw (absent, last, e),
          rw (by_value, by_byte, e) tt,
        )
      ]
  | inr (p, at) ↦
      let by_value =
        add_peer_listening_shard-entry n peer id (cell st.cells p)
          (ground (arith, at, r.entries peer)) in
      let by_byte = set_shard-loaded (cell st.cells p) id in
      elim (ending (loaded (cell st.cells p) id)) [
        | returns b e ↦
            let ls = with_byte (cell st.cells p) b.0 b.1 in
            (
              (
                ok tt,
                record {
                  cells = set st.cells p ls;
                  shard_pref_map = insert peer p st.shard_pref_map;
                },
              ),
              rw (at, e),
              rw (by_value, by_byte, e)
                  (again-Refines (record st { cells = set st.cells p ls })
                    (record { shard_pref_map = insert peer ls n.shard_pref_map }) peer p at
                    (write-Refines st n peer p ls w r at)),
            )
        | fails err e ↦ ((fail err, st), rw (at, e), rw (by_value, by_byte, e) (refl, w, r))
        | panics e ↦ ((panic, st), rw (at, e), rw (by_value, by_byte, e) tt)
      ]
]
