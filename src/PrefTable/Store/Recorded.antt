-- ===== src/PrefTable/Store/Recorded.antt =====
-- Any number of concurrent calls of `AddPeerListeningShard`, for peers that the map holds.
use sharding_p2p_poc.Prelude.{
  ℕ, zero, suc, ◌<◌, ◌/◌, ◌≢◌, pos, Bytes, bytes_eq, bytes_beq_iff, Bool, true, false, ◌&&◌, ◌||◌,
  ◌==◌, nat_beq, nat_beq_iff, if◌then◌else◌, ◌≡◌, refl, subst, arith, some, length, Bool-cases, inl,
  inr,
}
use sharding_p2p_poc.Prelude.Assoc.{lookup}
use sharding_p2p_poc.Outcome.{ok}
use sharding_p2p_poc.Shards.{num_shards}
use sharding_p2p_poc.Shards.View.{has_shard, IsWellFormed}
use sharding_p2p_poc.PrefTable.Store.{
  Store, cell, Adding, reading, setting, writing, storing, added, add_step, loaded,
}
use sharding_p2p_poc.PrefTable.Store.Refinement.{IsStore}

-- The store, and where each call stands
pub record System : Type 0 where
  pub store : Store
  pub place : ℕ → Adding

abbrev pub moved : (ℕ → Adding) → ℕ → Adding → ℕ → Adding
moved place i a j = if nat_beq i j then a else place j

module _ (count : ℕ) (peer : ℕ → Bytes) (shard : ℕ → ℕ) where
  -- The next step of one of the calls
  abbrev pub picked : ℕ → System → System
  picked i s =
      let r = add_step (peer i) (pos (shard i)) (s.place i) s.store in
      record { store = r.1; place = moved s.place i r.0 }

  -- From a store, with every call at its start
  pub data Reach (st : Store) : System → Type 0 where
    start : Reach st (record { store = st; place = λ i. reading })
    pick : {s : System} → Reach st s → (i : ℕ) → i < count → Reach st (picked i s)

  -- Does one of the first `k` calls enter the shard `t` for the peer `q`?
  abbrev pub called : ℕ → Bytes → ℕ → Bool
  called zero q t = false
  called (suc k) q t = (peer k == q && nat_beq (shard k) t) || called k q t

  pub called_by : (k i : ℕ) → i < k → called k (peer i) (shard i) ≡ true
  called_by zero i h = elim h [ ]
  called_by (suc k) i h = elim (Bool-cases (nat_beq i k)) [
    | inl e ↦
        rw (← (nat_beq_iff i k).0 e)
          (ground (arith, bytes_beq_iff (peer i) (peer i), nat_beq_iff (shard i) (shard i)))
    | inr e ↦ ground (arith, e, nat_beq_iff i k, called_by k i (ground (arith, e, nat_beq_iff i k)))
  ]

  -- The table that the calls start from: pointers without sharing to well-formed sets, and each
  -- call has a shard in range and a peer that the map holds, where two calls for one peer are
  -- about different bytes of its set.
  pub record Ready (st : Store) : Type 0 where
    pub is_store : IsStore st
    pub forms :
        (q : Bytes) (p : ℕ) → lookup q st.shard_pref_map ≡ some p → IsWellFormed (cell st.cells p)
    pub recorded : (i : ℕ) → i < count → (p : ℕ) × (lookup (peer i) st.shard_pref_map ≡ some p)
    pub in_range : (i : ℕ) → i < count → shard i < num_shards
    pub bytes_apart :
        (i j : ℕ) → i < count → j < count → i ≢ j → peer i ≡ peer j → shard i / 8 ≢ shard j / 8

  module _ (st : Store) (ready : Ready st) where
    -- What holds of a call at each place: its pointer is that of its peer, the byte that it has
    -- read is still there, and once the bit is set it stays.
    abbrev pub At : Store → Bytes → ℕ → Adding → Type 0
    At now q s reading = Unit
    At now q s (setting p) = lookup q st.shard_pref_map ≡ some p
    At now q s (writing p k b) =
        (lookup q st.shard_pref_map ≡ some p) × (loaded (cell now.cells p) (pos s) ≡ ok (k, b))
    At now q s (storing p) =
        (lookup q st.shard_pref_map ≡ some p) × (has_shard (cell now.cells p) s ≡ true)
    At now q s (added r) =
        (r ≡ ok tt)
        × (p : ℕ) × (lookup q st.shard_pref_map ≡ some p)
        × (has_shard (cell now.cells p) s ≡ true)

    pub record Stands (s : System) : Type 0 where
      pub same_map : (q : Bytes) → lookup q s.store.shard_pref_map ≡ lookup q st.shard_pref_map
      pub same_length : length s.store.cells ≡ length st.cells
      pub forms :
          (q : Bytes) (p : ℕ)
          → lookup q st.shard_pref_map ≡ some p
          → IsWellFormed (cell s.store.cells p)
      pub at : (i : ℕ) → i < count → At s.store (peer i) (shard i) (s.place i)
      pub kept :
          (p t : ℕ)
          → has_shard (cell st.cells p) t ≡ true
          → has_shard (cell s.store.cells p) t ≡ true
      pub only :
          (q : Bytes) (p t : ℕ)
          → lookup q st.shard_pref_map ≡ some p
          → has_shard (cell s.store.cells p) t ≡ true
          → (called count q t || has_shard (cell st.cells p) t) ≡ true

    pub start-Stands : Stands (record { store = st; place = λ i. reading })
    start-Stands = record {
      same_map = λ q. refl;
      same_length = refl;
      forms = ready.forms;
      at = λ i h. tt;
      kept = λ p t e. e;
      only = λ q p t l e. ground (arith, e);
    }

    -- A byte that a call has read is still what it would read.
    abbrev pub StillReads : Store → Store → Bytes → ℕ → Type 0
    StillReads now next q s =
        (p k b : ℕ)
        → lookup q st.shard_pref_map ≡ some p
        → loaded (cell now.cells p) (pos s) ≡ ok (k, b)
        → loaded (cell next.cells p) (pos s) ≡ ok (k, b)

    -- More bits are set, and the byte is as it was: the places stay as they were.
    At-grows :
        (now next : Store) (q : Bytes) (s : ℕ) (a : Adding)
        → ((p t : ℕ)
            → has_shard (cell now.cells p) t ≡ true
            → has_shard (cell next.cells p) t ≡ true)
        → StillReads now next q s
        → At now q s a
        → At next q s a
    At-grows now next q s reading f g h = tt
    At-grows now next q s (setting p) f g h = h
    At-grows now next q s (writing p k b) f g h = (h.0, g p k b h.0 h.1)
    At-grows now next q s (storing p) f g h = (h.0, f p s h.1)
    At-grows now next q s (added r) f g (e, p, l, b) = (e, p, l, f p s b)

    -- The place of the call that moved, and those of the others
    pub moved-At :
        (now next : Store) (place : ℕ → Adding) (i : ℕ) (a : Adding)
        → ((p t : ℕ)
            → has_shard (cell now.cells p) t ≡ true
            → has_shard (cell next.cells p) t ≡ true)
        → ((j : ℕ) → j < count → i ≢ j → StillReads now next (peer j) (shard j))
        → ((j : ℕ) → j < count → At now (peer j) (shard j) (place j))
        → At next (peer i) (shard i) a
        → (j : ℕ) → j < count
        → At next (peer j) (shard j) (moved place i a j)
    moved-At now next place i a f g old new j h = elim (Bool-cases (nat_beq i j)) [
      | inl e ↦ rw e (subst (λ k. At next (peer k) (shard k) a) ((nat_beq_iff i j).0 e) new)
      | inr e ↦ rw e (
          At-grows now next (peer j) (shard j) (place j) f
            (g j h (λ same. ground (arith, e, same, nat_beq_iff i j))) (old j h))
    ]
