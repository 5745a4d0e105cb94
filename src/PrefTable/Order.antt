-- ===== src/PrefTable/Order.antt =====
-- shardpreftable.go, lines 129 to 192, up to what a caller can see: a table stands for its relation,
-- and the peers that a search finds have no order, since Go ranges over a map in any order.
use mathlib.Core.Quot
use mathlib.Core.Quot.{Quot, Quot-set}
use sharding_p2p_poc.Prelude.{
  ℕ, ◌+◌, ◌<◌, pos, Bytes, bytes_eq, bytes_beq_iff, nat_beq, Bool, false, not, ◌&&◌, ◌||◌, ◌==◌,
  if◌then◌else◌, ◌≡◌, refl, sym, ap, ◌∙◌, arith, List, [], ◌∷◌, All, Bool-cases, inl, inr, contains,
}
use sharding_p2p_poc.Prelude.Assoc.{Assoc, lookup, Distinct}
use sharding_p2p_poc.Outcome.{Outcome, ok, fail, panic, ◌>>=◌}
use sharding_p2p_poc.Shards.{ListeningShards, num_shards}
use sharding_p2p_poc.PrefTable.{
  ShardPrefTable, add_peer_listening_shard, remove_peer_listening_shard, get_peers_in_shard,
}
use sharding_p2p_poc.PrefTable.View.{Relation, join, leave, listens, entry_bit, IsTable, Holds}
use sharding_p2p_poc.PrefTable.Ops.{
  add_peer_listening_shard-Holds, remove_peer_listening_shard-Holds,
}
use sharding_p2p_poc.PrefTable.Peers.{listeners, listens_absent, get_peers_in_shard-listeners}

abbrev SameRelation : ShardPrefTable → ShardPrefTable → Type 0
SameRelation a b = (p : Bytes) (t : ℕ) → listens a p t ≡ listens b p t

-- Tables that hold the same relation are one.
abbrev pub Preferences : Type 0
Preferences = Quot SameRelation

abbrev pub table_of : ShardPrefTable → Preferences
table_of = Quot.mk

-- The relation is still there.
unfoldable pub listens_in : Preferences → Bytes → ℕ → Bool
listens_in x p t = Quot.lift (hlevel) (λ a. listens a p t) (λ a b h. h p t) x

exact : {a b : ShardPrefTable} → table_of a ≡ table_of b → SameRelation a b
unfolding listens_in
exact e p t = ap (λ x. listens_in x p t) e

abbrev count : Bytes → List Bytes → ℕ
count q [] = 0
count q (p ∷ peers) = (if p == q then 1 else 0) + count q peers

abbrev SamePeers : List Bytes → List Bytes → Type 0
SamePeers xs ys = (q : Bytes) → count q xs ≡ count q ys

abbrev pub Peers : Type 0
Peers = Quot SamePeers

abbrev pub peers_of : List Bytes → Peers
peers_of = Quot.mk

-- What an outcome shows
abbrev pub showing {ℓ κ} : {A : Type ℓ} {B : Type κ} → (A → B) → Outcome A → Outcome B
showing f (ok a) = ok (f a)
showing f (fail e) = fail e
showing f panic = panic

listens_once :
    (s : ℕ) (m : Assoc Bytes ListeningShards) (q : Bytes)
    → contains (listeners s m) q ≡ false
    → count q (listeners s m) ≡ 0
unfolding listeners contains
listens_once s [] q h = refl
listens_once s ((p, ls) ∷ m) q h = ground (arith, listens_once s m q)

-- Each listener stands once.
count-listeners :
    (s : ℕ) (m : Assoc Bytes ListeningShards) (q : Bytes)
    → Distinct m
    → count q (listeners s m) ≡ (if entry_bit (lookup q m) s then 1 else 0)
unfolding listeners lookup
count-listeners s [] q d = refl
count-listeners s ((p, ls) ∷ m) q d = elim (Bool-cases (p == q)) [
  | inl e ↦
      let none_left =
        listens_once s m q (listens_absent s m q (rw (← (bytes_beq_iff p q).0 e) d.0)) in
      ground (arith, e, none_left)
  | inr e ↦ ground (arith, e, count-listeners s m q d.1)
]

-- For two well-formed tables that hold the same relation, in whatever order their maps are ranged
-- over, GetPeersInShard of a shard below 100 returns the same peers, each as often.
pub get_peers_in_shard-any_order :
    (n m : ShardPrefTable) (s : ℕ)
    → IsTable n
    → IsTable m
    → s < num_shards
    → table_of n ≡ table_of m
    → (peers : Peers) × (showing peers_of (get_peers_in_shard n (pos s)) ≡ ok peers)
      × (showing peers_of (get_peers_in_shard m (pos s)) ≡ ok peers)
get_peers_in_shard-any_order n m s w v h e =
    let same = Quot.sound {r = SamePeers} λ q.
      count-listeners s n.shard_pref_map q w.distinct
      ∙ ap (λ b. if b then 1 else 0) (exact e q s)
      ∙ sym (count-listeners s m.shard_pref_map q v.distinct) in
    (
      peers_of (listeners s n.shard_pref_map),
      rw (get_peers_in_shard-listeners n s w h),
      rw (get_peers_in_shard-listeners m s v h) (ap ok (sym same)),
    )

-- A call of AddPeerListeningShard or of RemovePeerListeningShard
pub data Update : Type 0 where
  adds removes : (peer : Bytes) (shard : ℕ) → Update

abbrev pub shard_of : Update → ℕ
shard_of (adds p s) = s
shard_of (removes p s) = s

unfoldable pub update : Update → ShardPrefTable → Outcome ShardPrefTable
update (adds p s) n = add_peer_listening_shard n p (pos s)
update (removes p s) n = remove_peer_listening_shard n p (pos s)

unfoldable pub updates : List Update → ShardPrefTable → Outcome ShardPrefTable
updates [] n = ok n
updates (u ∷ us) n = do m ← update u n; updates us m

abbrev pub is_added : List Update → Bytes → ℕ → Bool
is_added [] p t = false
is_added (adds q s ∷ us) p t = (q == p && nat_beq s t) || is_added us p t
is_added (removes q s ∷ us) p t = is_added us p t

abbrev pub is_removed : List Update → Bytes → ℕ → Bool
is_removed [] p t = false
is_removed (adds q s ∷ us) p t = is_removed us p t
is_removed (removes q s ∷ us) p t = (q == p && nat_beq s t) || is_removed us p t

-- No pair is both added and removed.
abbrev pub NoConflict : List Update → Type 0
NoConflict us = (p : Bytes) (t : ℕ) → (is_added us p t && is_removed us p t) ≡ false

abbrev after : List Update → Relation → Relation
after us r p t = is_added us p t || (not (is_removed us p t) && r p t)

-- A block of two calls
then_updates :
    (n : ShardPrefTable) (us : List Update) (r : Outcome ShardPrefTable) (one all : Relation)
    → (h : Holds r one) → (rest : Holds (updates us h.result) (after us (listens h.result)))
    → ((p : Bytes) (t : ℕ) → after us one p t ≡ all p t)
    → Holds (do m ← r; updates us m) all
then_updates n us r one all h rest e = record {
  result = rest.result;
  returned = rw (h.returned) rest.returned;
  is_table = rest.is_table;
  relation = λ p t.
      rest.relation p t
      ∙ ap (λ b. is_added us p t || (not (is_removed us p t) && b)) (h.relation p t)
      ∙ e p t;
}

updates-Holds :
    (us : List Update) (n : ShardPrefTable)
    → IsTable n
    → All (λ u. shard_of u < num_shards) us
    → NoConflict us
    → Holds (updates us n) (after us (listens n))
unfolding updates update
updates-Holds [] n w h c = record {
  result = n;
  returned = refl;
  is_table = w;
  relation = λ p t. refl;
}
updates-Holds (adds q s ∷ us) n w h c =
    let a = add_peer_listening_shard-Holds n q w s h.0 in
    then_updates n us _ (join q s (listens n)) _ a
      (updates-Holds us a.result a.is_table h.1 (λ p t. ground (arith, c p t)))
      (λ p t. ground (arith, c p t))
updates-Holds (removes q s ∷ us) n w h c =
    let a = remove_peer_listening_shard-Holds n q w s h.0 in
    then_updates n us _ (leave q s (listens n)) _ a
      (updates-Holds us a.result a.is_table h.1 (λ p t. ground (arith, c p t)))
      (λ p t. ground (arith, c p t))

-- Two sequences of AddPeerListeningShard and RemovePeerListeningShard for shards below 100 that
-- add the same pairs and remove the same pairs, none of them both, whatever their order and
-- however often, both return without an error from a well-formed table, with the same preferences,
-- where tables are taken up to the relation that they hold: a pair is in it exactly when it is
-- added, or when it is not removed and was there before.
pub updates-any_order :
    (n : ShardPrefTable) (us vs : List Update)
    → IsTable n
    → All (λ u. shard_of u < num_shards) us
    → All (λ u. shard_of u < num_shards) vs
    → NoConflict us
    → ((p : Bytes) (t : ℕ) → is_added us p t ≡ is_added vs p t)
    → ((p : Bytes) (t : ℕ) → is_removed us p t ≡ is_removed vs p t)
    → (x : Preferences) × (showing table_of (updates us n) ≡ ok x)
      × (showing table_of (updates vs n) ≡ ok x)
      × ((p : Bytes) (t : ℕ)
          → listens_in x p t ≡ (is_added us p t || (not (is_removed us p t) && listens n p t)))
updates-any_order n us vs w hu hv c adding removing =
    let a = updates-Holds us n w hu c in
    let b = updates-Holds vs n w hv (λ p t. ground (arith, adding p t, removing p t, c p t)) in
    let same =
      Quot.sound {r = SameRelation}
        λ p t. b.relation p t ∙ ground (arith, adding p t, removing p t) ∙ sym (a.relation p t) in
    (
      table_of a.result,
      rw (a.returned),
      rw (b.returned) (ap ok same),
      λ p t. unfold listens_in in a.relation p t,
    )
