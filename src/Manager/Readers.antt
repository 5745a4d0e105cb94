-- ===== src/Manager/Readers.antt =====
-- shardmanager.go, lines 270 to 281 and 310 to 316: the goroutine that reads the announcements.
use sharding_p2p_poc.Prelude.{
  ℕ, Bytes, bytes_eq, ◌==◌, false, ◌≡◌, refl, ap, ◌∙◌, arith, List, [], ◌∷◌, if◌then◌else◌,
}
use sharding_p2p_poc.Outcome.{Outcome, ok, fail, panic}
use sharding_p2p_poc.Shards.{new_listening_shards, from_bytes}
use sharding_p2p_poc.Shards.View.{IsWellFormed, has_shard}
use sharding_p2p_poc.PrefTable.View.{listens, Relation}
use sharding_p2p_poc.PrefTable.Ops.{listens-set_peer_listening_shard}
use sharding_p2p_poc.Network.{Network, shard_pref_handler}
use sharding_p2p_poc.State.{Node, Message}
use sharding_p2p_poc.Manager.{run_handler, read_messages}
use sharding_p2p_poc.Manager.Sync.{IsInSync, heard-IsInSync}

-- Who listens to what after the messages that come before the first error: the last one of a peer
-- counts.
abbrev pub latest : List (Outcome Message) → Relation → Relation
latest [] r = r
latest (ok msg ∷ rest) r = latest rest (λ p t.
    if msg.from == p then has_shard (from_bytes new_listening_shards msg.payload) t else r p t)
latest (fail e ∷ rest) r = r
latest (panic ∷ rest) r = r

module _ (net : Network) where
  open net use {host_id}

  -- Announcements of other peers of well-formed bit strings, up to the first error
  abbrev pub Announcements : List (Outcome Message) → Type 0
  Announcements [] = Unit
  Announcements (ok msg ∷ rest) =
      ((host_id == msg.from) ≡ false)
      × IsWellFormed (from_bytes new_listening_shards msg.payload)
      × Announcements rest
  Announcements (fail e ∷ rest) = Unit
  Announcements (panic ∷ rest) = ⊥

  latest-ext :
      (messages : List (Outcome Message)) (r s : Relation)
      → ((p : Bytes) (t : ℕ) → r p t ≡ s p t)
      → (p : Bytes) (t : ℕ) → latest messages r p t ≡ latest messages s p t
  latest-ext [] r s h p t = h p t
  latest-ext (ok msg ∷ rest) r s h p t = latest-ext rest _ _ (λ q k. ground (arith, h q k)) p t
  latest-ext (fail e ∷ rest) r s h p t = h p t
  latest-ext (panic ∷ rest) r s h p t = h p t

  -- The table once a message is handled
  handled :
      (n : Node net) (msg : Message) (p : Bytes) (t : ℕ)
      → listens (run_handler net shard_pref_handler msg n).1.shard_pref_table p t ≡ (
          if msg.from == p
          then has_shard (from_bytes new_listening_shards msg.payload) t
          else listens n.shard_pref_table p t)
  unfolding run_handler
  handled n msg p t =
      listens-set_peer_listening_shard n.shard_pref_table msg.from
        (from_bytes new_listening_shards msg.payload) p t

  handler_returns :
      (n : Node net) (msg : Message) → (run_handler net shard_pref_handler msg n).0 ≡ ok tt
  unfolding run_handler
  handler_returns n msg = refl

  -- The reader has returned, preferences and subscriptions agree, and the table has the latest
  -- announcements.
  pub record Read (n : Node net) (messages : List (Outcome Message))
      (r : Outcome (Unit {0}) × Node net) : Type 0 where
    pub returned : r.0 ≡ ok tt
    pub in_sync : IsInSync net r.1
    pub relation :
        (p : Bytes) (t : ℕ)
        → listens r.1.shard_pref_table p t ≡ latest messages (listens n.shard_pref_table) p t

  -- From a node whose table is well formed and whose preferences and subscriptions agree, when the
  -- messages that come before the first error are announcements of other peers of well-formed bit
  -- strings: the reader of announcements returns without an error, the same is true of the node,
  -- and each pair of the table is by the last of these announcements of the peer, or as before
  -- without one.
  pub read_messages_lem :
      (messages : List (Outcome Message)) (n : Node net)
      → Announcements messages
      → IsInSync net n
      → Read n messages (read_messages net shard_pref_handler messages n)
  unfolding read_messages
  read_messages_lem [] n h w = record { returned = refl; in_sync = w; relation = λ p t. refl }
  read_messages_lem (fail e ∷ rest) n h w = record {
    returned = refl;
    in_sync = w;
    relation = λ p t. refl;
  }
  read_messages_lem (panic ∷ rest) n h w = elim h [ ]
  read_messages_lem (ok msg ∷ rest) n h w =
      let m = (run_handler net shard_pref_handler msg n).1 in
      let returned = handler_returns n msg in
      let w' = heard-IsInSync net n msg m h.0 h.1 (ap (λ o. (o, m)) returned) w in
      let rec = read_messages_lem rest m h.2 w' in
      rw returned (record {
        returned = rec.returned;
        in_sync = rec.in_sync;
        relation = λ p t. rec.relation p t ∙ latest-ext rest _ _ (handled n msg) p t;
      })
