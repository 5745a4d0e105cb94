-- ===== src/PrefTable/Store/Refinement.antt =====
-- The table with the pointers does what the table of values does.
use sharding_p2p_poc.Prelude.{
  ℕ, zero, suc, ◌<◌, Bytes, bytes_eq, bytes_beq_iff, ◌==◌, ◌≡◌, ◌≢◌, refl, sym, ap, ◌∙◌, arith,
  List, [], ◌∷◌, ◌++◌, Option, none, some, length, length-set, get_or, set, if◌then◌else◌,
  Bool-cases, Option-cases, inl, inr,
}
use sharding_p2p_poc.Prelude.Assoc.{lookup, insert, lookup-insert}
use sharding_p2p_poc.Shards.{ListeningShards, new_listening_shards}
use sharding_p2p_poc.PrefTable.{ShardPrefTable}
use sharding_p2p_poc.PrefTable.Store.{Store, cell}

-- The pointers are in the store, and no two peers have the same.
pub record IsStore (st : Store) : Type 0 where
  pub in_range : (q : Bytes) (p : ℕ) → lookup q st.shard_pref_map ≡ some p → p < length st.cells
  pub apart :
      (q r : Bytes) (p : ℕ)
      → lookup q st.shard_pref_map ≡ some p
      → lookup r st.shard_pref_map ≡ some p
      → q ≡ r

-- The set behind a pointer, if there is one
abbrev pub value : List ListeningShards → Option ℕ → Option ListeningShards
value cells none = none
value cells (some p) = some (cell cells p)

-- The store holds the entries of the table, in any order.
pub record Refines (st : Store) (n : ShardPrefTable) : Type 0 where
  pub entries :
      (q : Bytes) → value st.cells (lookup q st.shard_pref_map) ≡ lookup q n.shard_pref_map

pub get_or-set_self :
    (cells : List ListeningShards) (p : ℕ) (v d : ListeningShards)
    → p < length cells
    → get_or (set cells p v) p d ≡ v
get_or-set_self [] p v d h = elim h [ ]
get_or-set_self (x ∷ cells) zero v d h = refl
get_or-set_self (x ∷ cells) (suc p) v d h = get_or-set_self cells p v d (omega arith)

pub get_or-set_ne :
    (cells : List ListeningShards) (p q : ℕ) (v d : ListeningShards)
    → p ≢ q
    → get_or (set cells p v) q d ≡ get_or cells q d
get_or-set_ne [] p q v d h = refl
get_or-set_ne (x ∷ cells) zero zero v d h = absurd (h refl)
get_or-set_ne (x ∷ cells) zero (suc q) v d h = refl
get_or-set_ne (x ∷ cells) (suc p) zero v d h = refl
get_or-set_ne (x ∷ cells) (suc p) (suc q) v d h = get_or-set_ne cells p q v d (λ e. h (ap suc e))

pub get_or-old :
    (cells : List ListeningShards) (p : ℕ) (v d : ListeningShards)
    → p < length cells
    → get_or (cells ++ v ∷ []) p d ≡ get_or cells p d
get_or-old [] p v d h = elim h [ ]
get_or-old (x ∷ cells) zero v d h = refl
get_or-old (x ∷ cells) (suc p) v d h = get_or-old cells p v d (omega arith)

pub get_or-last :
    (cells : List ListeningShards) (v d : ListeningShards)
    → get_or (cells ++ v ∷ []) (length cells) d ≡ v
get_or-last [] v d = refl
get_or-last (x ∷ cells) v d = get_or-last cells v d

-- A write of the set of a recorded peer
pub write-Refines :
    (st : Store) (n : ShardPrefTable) (peer : Bytes) (p : ℕ) (ls : ListeningShards)
    → IsStore st
    → Refines st n
    → lookup peer st.shard_pref_map ≡ some p
    → IsStore (record st { cells = set st.cells p ls })
      × Refines
          (record st { cells = set st.cells p ls })
          (record { shard_pref_map = insert peer ls n.shard_pref_map })
write-Refines st n peer p ls w r e = (
  record { in_range = λ q k h. rw (length-set st.cells p ls) (w.in_range q k h); apart = w.apart },
  record { entries = λ q. after q },
)
  where
    after :
        (q : Bytes)
        → value (set st.cells p ls) (lookup q st.shard_pref_map)
          ≡ lookup q (insert peer ls n.shard_pref_map)
    after q = elim (Bool-cases (peer == q)) [
      | inl on ↦
          rw (lookup-insert peer q ls n.shard_pref_map, on, ← (bytes_beq_iff peer q).0 on, e)
            (ap some (get_or-set_self st.cells p ls new_listening_shards (w.in_range peer p e)))
      | inr off ↦ elim (Option-cases (lookup q st.shard_pref_map)) [
        | inl absent ↦
            ground (arith, absent, off, r.entries q, lookup-insert peer q ls n.shard_pref_map)
        | inr (k, at) ↦
            let other : p ≢ k = λ same. ground (
              arith,
              off,
              (bytes_beq_iff peer q).1 (w.apart peer q p e (at ∙ ap some (sym same))),
            ) in
            ground (
              arith,
              at,
              off,
              r.entries q,
              lookup-insert peer q ls n.shard_pref_map,
              get_or-set_ne st.cells p k ls new_listening_shards other,
            )
      ]
    ]

-- The map gets a pointer to a new cell behind the others.
pub fresh-Refines :
    (st : Store) (n : ShardPrefTable) (peer : Bytes) (cells : List ListeningShards)
    → IsStore st
    → Refines st n
    → length cells ≡ suc (length st.cells)
    → ((p : ℕ) → p < length st.cells → cell cells p ≡ cell st.cells p)
    → IsStore
        (record { cells = cells; shard_pref_map = insert peer (length st.cells) st.shard_pref_map })
      × Refines
          (record {
            cells = cells;
            shard_pref_map = insert peer (length st.cells) st.shard_pref_map;
          })
          (record { shard_pref_map = insert peer (cell cells (length st.cells)) n.shard_pref_map })
fresh-Refines st n peer cells w r long old =
    (record { in_range = range; apart = apart }, record { entries = entries })
  where
    found : Bytes → Option ℕ
    found q = lookup q (insert peer (length st.cells) st.shard_pref_map)

    inserted :
        (q : Bytes)
        → found q ≡ (if peer == q then some (length st.cells) else lookup q st.shard_pref_map)
    inserted q = lookup-insert peer q (length st.cells) st.shard_pref_map

    range : (q : Bytes) (k : ℕ) → found q ≡ some k → k < length cells
    range q k h = elim (Bool-cases (peer == q)) [
      | inl on ↦ ground (arith, on, h, inserted q, long)
      | inr off ↦ ground (arith, long, w.in_range q k (ground (arith, off, h, inserted q)))
    ]

    apart : (q t : Bytes) (k : ℕ) → found q ≡ some k → found t ≡ some k → q ≡ t
    apart q t k h i = elim (Bool-cases (peer == q)) [
      | inl on ↦ elim (Bool-cases (peer == t)) [
        | inl on' ↦ sym ((bytes_beq_iff peer q).0 on) ∙ (bytes_beq_iff peer t).0 on'
        | inr off' ↦ absurd (
            ground (arith, on, h, inserted q, w.in_range t k (ground (arith, off', i, inserted t))))
      ]
      | inr off ↦ elim (Bool-cases (peer == t)) [
        | inl on' ↦ absurd (
            ground (arith, on', i, inserted t, w.in_range q k (ground (arith, off, h, inserted q))))
        | inr off' ↦
            w.apart q t k (ground (arith, off, h, inserted q)) (ground (arith, off', i, inserted t))
      ]
    ]

    entries :
        (q : Bytes)
        → value cells (found q)
          ≡ lookup q (insert peer (cell cells (length st.cells)) n.shard_pref_map)
    entries q = elim (Bool-cases (peer == q)) [
      | inl on ↦
          rw (inserted q, lookup-insert peer q (cell cells (length st.cells)) n.shard_pref_map, on)
      | inr off ↦ elim (Option-cases (lookup q st.shard_pref_map)) [
        | inl absent ↦ ground (
          arith,
          absent,
          off,
          inserted q,
          r.entries q,
          lookup-insert peer q (cell cells (length st.cells)) n.shard_pref_map,
        )
        | inr (k, at) ↦ ground (
          arith,
          at,
          off,
          inserted q,
          r.entries q,
          old k (w.in_range q k at),
          lookup-insert peer q (cell cells (length st.cells)) n.shard_pref_map,
        )
      ]
    ]
