-- ===== src/Swarm.antt =====
-- The announcements of several nodes: `Advertise` of discovery.go and the handler of shardmanager.go,
-- lines 310 to 316, joined by the listening topic. Nothing is asked of the network but that a message
-- is one that its sender has published: it may be late, lost, repeated or out of order.
pub mod Announces
pub mod Tracks
pub mod Agreement
pub mod CatchUp
pub mod Finding
use sharding_p2p_poc.Prelude.{
  ℕ, ◌<◌, get_elem?, Option, none, some, ◌==◌, ℤ, pos, Bytes, bytes_eq, Bool, true, false, ◌&&◌,
  ◌≡◌, List, [], ◌∷◌, if◌then◌else◌,
}
use sharding_p2p_poc.Outcome
use sharding_p2p_poc.Outcome.{Outcome, ok}
use sharding_p2p_poc.Shards.{num_shards, new_listening_shards, from_bytes, to_bytes}
use sharding_p2p_poc.PrefTable.{
  ShardPrefTable, new_shard_pref_table, get_peer_listening_shard, set_peer_listening_shard,
}
use sharding_p2p_poc.Discovery.{toggle}

-- The part of `Advertise` between the parser and the publication: the new table, and the bytes
unfoldable pub announcement : Bytes → ShardPrefTable → ℤ → Outcome (ShardPrefTable × Bytes)
announcement host_id table shard_id =
    Outcome.◌>>=◌ (toggle host_id table shard_id) λ table'.
      Outcome.◌>>=◌ (get_peer_listening_shard table' host_id) λ ls. ok (table', to_bytes ls)

-- The preference handler, on the table
unfoldable pub hear : Bytes → Bytes → ShardPrefTable → ShardPrefTable
hear sender bytes table =
    set_peer_listening_shard table sender (from_bytes new_listening_shards bytes)

-- The table of each node, what each has published, newest first, and what of each each other one
-- handled last
pub record Swarm : Type 0 where
  pub table : Bytes → ShardPrefTable
  pub published : Bytes → List Bytes
  pub heard : Bytes → Bytes → Option Bytes

abbrev pub with_table : (Bytes → ShardPrefTable) → Bytes → ShardPrefTable → Bytes → ShardPrefTable
with_table table p t q = if p == q then t else table q

abbrev pub newest : List Bytes → Option Bytes
newest [] = none
newest (bytes ∷ older) = some bytes

-- A node changes its table and publishes its preferences.
abbrev pub announce : Bytes → ShardPrefTable → Bytes → Swarm → Swarm
announce p t bytes sw = record {
  table = with_table sw.table p t;
  published = λ a. if p == a then bytes ∷ sw.published a else sw.published a;
  heard = sw.heard;
}

-- The node `b` handles a message of `a`.
abbrev pub deliver : Bytes → Bytes → Bytes → Swarm → Swarm
deliver a b bytes sw = record {
  table = with_table sw.table b (hear a bytes (sw.table b));
  published = sw.published;
  heard = λ c d. if (a == c) && (b == d) then some bytes else sw.heard c d;
}

-- A node announces, or handles some message that another one has published.
pub data Step (sw : Swarm) : Swarm → Type 0 where
  announced :
      (p : Bytes) (s : ℕ) (t : ShardPrefTable) (bytes : Bytes)
      → s < num_shards
      → announcement p (sw.table p) (pos s) ≡ ok (t, bytes)
      → Step sw (announce p t bytes sw)
  delivered :
      (a b : Bytes) (i : ℕ) (bytes : Bytes)
      → (a == b) ≡ false
      → get_elem? (sw.published a) i ≡ some bytes
      → Step sw (deliver a b bytes sw)

pub data Reach (sw : Swarm) : Swarm → Type 0 where
  here : Reach sw sw
  next : {m k : Swarm} → Reach sw m → Step m k → Reach sw k

abbrev pub new_swarm : Swarm
new_swarm = record { table = λ p. new_shard_pref_table; published = λ a. []; heard = λ a b. none }

-- What `b` handled last of `a` is what `a` published last; or neither is anything.
abbrev pub IsCurrent : Swarm → Bytes → Bytes → Type 0
IsCurrent sw a b = sw.heard a b ≡ newest (sw.published a)

-- The newest message of a node reaches another one, if there is any.
abbrev pub deliver_newest : Bytes → Bytes → Option Bytes → Swarm → Swarm
deliver_newest a b none sw = sw
deliver_newest a b (some bytes) sw = deliver a b bytes sw

-- The same for one pair of nodes after the other
unfoldable pub catch_up : List (Bytes × Bytes) → Swarm → Swarm
catch_up [] sw = sw
catch_up ((a, b) ∷ pairs) sw = catch_up pairs (deliver_newest a b (newest (sw.published a)) sw)
