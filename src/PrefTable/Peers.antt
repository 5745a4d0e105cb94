-- ===== src/PrefTable/Peers.antt =====
-- shardpreftable.go, lines 182 to 192: `GetPeersInShard`, on well-formed tables and on others.
use mathlib.Core.List.{append-nil, append_assoc}
use sharding_p2p_poc.Prelude.{
  ℕ, ◌<◌, ◌≤◌, ℤ, pos, negsuc, Bytes, bytes_eq, bytes_beq_iff, false, ◌≡◌, refl, sym, ap, ◌∙◌,
  arith, List, [], ◌∷◌, ◌++◌, none, some, ◌==◌, ==_refl, contains, Bool-cases, inl, inr, ◌⊎◌,
  length, if◌then◌else◌, ◌/◌,
}
use sharding_p2p_poc.Prelude.Assoc.{Assoc, lookup, Distinct, lookup-insert_self}
use sharding_p2p_poc.Outcome.{ok, panic}
use sharding_p2p_poc.Shards.{ListeningShards, num_shards, is_shard_set, from_bytes}
use sharding_p2p_poc.Shards.View.{has_shard, IsWellFormed, is_shard_set-valid}
use sharding_p2p_poc.Shards.Bounds.{
  is_shard_set-no_error, is_shard_set-short, is_shard_set-negative,
}
use sharding_p2p_poc.PrefTable.{
  ShardPrefTable, peers_loop, get_peers_in_shard, set_peer_listening_shard,
}
use sharding_p2p_poc.PrefTable.View.{listens, entry_bit, IsTable}

-- The peers of a map whose entry has a shard, in the order of the map.
unfoldable pub listeners : ℕ → Assoc Bytes ListeningShards → List Bytes
listeners s [] = []
listeners s ((p, ls) ∷ m) = if has_shard ls s then p ∷ listeners s m else listeners s m

abbrev AllWellFormed : Assoc Bytes ListeningShards → Type 0
AllWellFormed [] = Unit
AllWellFormed ((p, ls) ∷ m) = IsWellFormed ls × AllWellFormed m

distinct_tail :
    (p q : Bytes) (ls l : ListeningShards) (m : Assoc Bytes ListeningShards)
    → lookup p m ≡ none
    → lookup q m ≡ some l
    → lookup q ((p, ls) ∷ m) ≡ some l
unfolding lookup
distinct_tail p q ls l m d e = ground (arith, bytes_beq_iff p q)

well_formed_entries :
    (m : Assoc Bytes ListeningShards)
    → Distinct m
    → ((p : Bytes) (ls : ListeningShards) → lookup p m ≡ some ls → IsWellFormed ls)
    → AllWellFormed m
well_formed_entries [] d h = tt
well_formed_entries ((p, ls) ∷ m) d h = (
  h p ls (unfold lookup in rw (==_refl p)),
  well_formed_entries m d.1 (λ q l e. h q l (distinct_tail p q ls l m d.0 e)),
)

peers_loop_lem :
    (s : ℕ) (m : Assoc Bytes ListeningShards) (acc : List Bytes)
    → s < num_shards
    → AllWellFormed m
    → peers_loop (pos s) m acc ≡ ok (acc ++ listeners s m)
unfolding peers_loop listeners
peers_loop_lem s [] acc h w = ap ok (sym (append-nil acc))
peers_loop_lem s ((p, ls) ∷ m) acc h w = elim (Bool-cases (has_shard ls s)) [
  | inl e ↦
      rw (is_shard_set-valid ls s w.0 h, e)
        (peers_loop_lem s m (acc ++ p ∷ []) h w.1 ∙ ap ok (append_assoc acc (p ∷ []) _))
  | inr e ↦ rw (is_shard_set-valid ls s w.0 h, e) (peers_loop_lem s m acc h w.1)
]

pub listens_absent :
    (s : ℕ) (m : Assoc Bytes ListeningShards) (q : Bytes)
    → lookup q m ≡ none
    → contains (listeners s m) q ≡ false
unfolding listeners contains lookup
listens_absent s [] q h = refl
listens_absent s ((p, ls) ∷ m) q h = ground (arith, listens_absent s m q)

contains-listeners :
    (s : ℕ) (m : Assoc Bytes ListeningShards) (q : Bytes)
    → Distinct m
    → contains (listeners s m) q ≡ entry_bit (lookup q m) s
unfolding listeners contains lookup
contains-listeners s [] q d = refl
contains-listeners s ((p, ls) ∷ m) q d = elim (Bool-cases (p == q)) [
  | inl e ↦ ground (arith, e, listens_absent s m q (rw (← (bytes_beq_iff p q).0 e) d.0))
  | inr e ↦ ground (arith, e, contains-listeners s m q d.1)
]

pub get_peers_in_shard-listeners :
    (n : ShardPrefTable) (s : ℕ)
    → IsTable n
    → s < num_shards
    → get_peers_in_shard n (pos s) ≡ ok (listeners s n.shard_pref_map)
unfolding get_peers_in_shard
get_peers_in_shard-listeners n s w h =
    peers_loop_lem s n.shard_pref_map [] h
      (well_formed_entries n.shard_pref_map w.distinct w.entries)

pub contains-listeners_table :
    (n : ShardPrefTable) (s : ℕ) (q : Bytes)
    → IsTable n
    → contains (listeners s n.shard_pref_map) q ≡ listens n q s
contains-listeners_table n s q w = contains-listeners s n.shard_pref_map q w.distinct

-- The search returns or panics; it has no error.
peers_loop-no_error :
    (id : ℤ) (m : Assoc Bytes ListeningShards) (acc : List Bytes)
    → (peers_loop id m acc ≡ panic) ⊎ ((peers : List Bytes) × (peers_loop id m acc ≡ ok peers))
unfolding peers_loop
peers_loop-no_error id [] acc = inr (acc, refl)
peers_loop-no_error id ((p, ls) ∷ m) acc = elim (is_shard_set-no_error ls id) [
  | inl bad ↦ inl (rw bad)
  | inr (b, returned) ↦ rw returned (peers_loop-no_error id m (if b then acc ++ p ∷ [] else acc))
]

pub get_peers_in_shard-no_error :
    (n : ShardPrefTable) (id : ℤ)
    → (get_peers_in_shard n id ≡ panic)
      ⊎ ((peers : List Bytes) × (get_peers_in_shard n id ≡ ok peers))
unfolding get_peers_in_shard
get_peers_in_shard-no_error n id = peers_loop-no_error id n.shard_pref_map []

-- On a well-formed table, for a shard below 100, GetPeersInShard returns a list in which a peer
-- stands exactly when it listens to the shard.
pub get_peers_in_shard_lem :
    (n : ShardPrefTable) (s : ℕ)
    → IsTable n
    → s < num_shards
    → (peers : List Bytes) × (get_peers_in_shard n (pos s) ≡ ok peers)
      × ((q : Bytes) → contains peers q ≡ listens n q s)
get_peers_in_shard_lem n s w h = (
  listeners s n.shard_pref_map,
  get_peers_in_shard-listeners n s w h,
  λ q. contains-listeners_table n s q w,
)

panicking_entry :
    (id : ℤ) (m : Assoc Bytes ListeningShards) (acc : List Bytes) (q : Bytes) (l : ListeningShards)
    → lookup q m ≡ some l
    → is_shard_set l id ≡ panic
    → peers_loop id m acc ≡ panic
unfolding peers_loop lookup
panicking_entry id [] acc q l e h = cc
panicking_entry id ((p, ls) ∷ m) acc q l e h = elim (is_shard_set-no_error ls id) [
  | inl bad ↦ rw bad
  | inr (b, returned) ↦
      rw returned
        (panicking_entry id m (if b then acc ++ p ∷ [] else acc) q l (ground (arith, returned)) h)
]

-- After a peer has announced a string that is too short to hold the bit of a shard below 100,
-- GetPeersInShard of the shard panics, whatever else the table holds.
pub short_announcement :
    (n : ShardPrefTable) (peer bytes : Bytes) (ls : ListeningShards) (s : ℕ)
    → s < num_shards
    → length bytes ≤ s / 8
    → get_peers_in_shard (set_peer_listening_shard n peer (from_bytes ls bytes)) (pos s) ≡ panic
unfolding get_peers_in_shard set_peer_listening_shard from_bytes
short_announcement n peer bytes ls s h short =
    panicking_entry (pos s) _ [] peer (record { shard_bits = bytes })
      (lookup-insert_self peer (record { shard_bits = bytes }) n.shard_pref_map)
      (is_shard_set-short (record { shard_bits = bytes }) s h short)

-- A table with an entry of 13 bytes cannot be searched for an ID from -8 down to -1951.
pub negative_search :
    (n : ShardPrefTable) (peer : Bytes) (ls : ListeningShards) (k : ℕ)
    → lookup peer n.shard_pref_map ≡ some ls
    → length ls.shard_bits ≡ 13
    → 7 ≤ k
    → k ≤ 1950
    → get_peers_in_shard n (negsuc k) ≡ panic
unfolding get_peers_in_shard
negative_search n peer ls k e len lo hi =
    panicking_entry (negsuc k) n.shard_pref_map [] peer ls e (is_shard_set-negative ls k len lo hi)
