-- ===== src/Swarm/Agreement.antt =====
-- What the nodes answer about one another when they have heard the newest announcements.
use sharding_p2p_poc.Prelude.{
  ℕ, ◌<◌, ◌==◌, pos, Bytes, bytes_eq, false, contains, ◌≡◌, sym, ap, ◌∙◌, List,
}
use sharding_p2p_poc.Outcome.{ok}
use sharding_p2p_poc.Shards.{num_shards}
use sharding_p2p_poc.PrefTable.{get_peers_in_shard}
use sharding_p2p_poc.PrefTable.View.{listens}
use sharding_p2p_poc.PrefTable.Peers.{get_peers_in_shard_lem}
use sharding_p2p_poc.Swarm.{Swarm, Reach, new_swarm, IsCurrent}
use sharding_p2p_poc.Swarm.Tracks.{Inv, Reach-Inv, new_swarm-Inv, view}

pub current_view :
    {sw : Swarm}
    → Inv sw
    → (a b : Bytes) → (a == b) ≡ false
    → IsCurrent sw a b
    → (t : ℕ) → listens (sw.table b) a t ≡ listens (sw.table a) a t
current_view inv a b ne e t = sym (inv.known a b ne t) ∙ ap (λ m. view m t) e ∙ inv.own a t

-- In a network of any number of nodes that may lose, delay, repeat and reorder messages, but
-- delivers only what the sender has published, and to others only: from empty tables, after any
-- sequence of announcements of shards below 100 and of handled messages, for a shard below 100 and
-- two different nodes such that what the one handled last of the other is what that one published
-- last, GetPeersInShard at the receiver returns a list in which the sender stands exactly when the
-- sender lists the shard as its own preference.
pub agreement :
    {sw : Swarm}
    → Reach new_swarm sw
    → (a b : Bytes) (s : ℕ) → (a == b) ≡ false
    → IsCurrent sw a b
    → s < num_shards
    → (peers : List Bytes) × (get_peers_in_shard (sw.table b) (pos s) ≡ ok peers)
      × (contains peers a ≡ listens (sw.table a) a s)
agreement {sw} r a b s ne e h =
    let inv = Reach-Inv new_swarm-Inv r in
    let (peers, returned, members) = get_peers_in_shard_lem (sw.table b) s (inv.tables b) h in
    (peers, returned, members a ∙ current_view inv a b ne e s)
