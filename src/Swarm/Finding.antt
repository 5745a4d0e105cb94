-- ===== src/Swarm/Finding.antt =====
-- discovery.go, lines 59 to 76: what FindPeers of a node finds of the other nodes.
use sharding_p2p_poc.Prelude.{
  ℕ, ◌<◌, ◌==◌, Bytes, bytes_eq, bytes_beq_iff, ==_refl, false, not, ◌&&◌, contains, ◌≡◌, ap, ◌∙◌,
  arith, List, [], ◌∷◌, All,
}
use sharding_p2p_poc.Outcome.{ok}
use sharding_p2p_poc.Shards.{num_shards}
use sharding_p2p_poc.PrefTable.View.{listens}
use sharding_p2p_poc.Network.{Network, PeerInfo}
use sharding_p2p_poc.State.{Node}
use sharding_p2p_poc.Discovery.{global_find_peers}
use sharding_p2p_poc.Discovery.Find.{Names, ids, global_find_peers_lem}
use sharding_p2p_poc.Swarm.{Swarm, Reach, new_swarm, IsCurrent}
use sharding_p2p_poc.Swarm.Tracks.{Inv, Reach-Inv, new_swarm-Inv}
use sharding_p2p_poc.Swarm.Agreement.{current_view}

-- Others than a node, whose newest announcements it has handled last
abbrev pub AreCurrent : Swarm → Bytes → List Bytes → Type 0
AreCurrent sw b others = All (λ a. ((a == b) ≡ false) × IsCurrent sw a b) others

-- A search finds exactly the nodes that list the shard.
abbrev pub Finds : Swarm → ℕ → List PeerInfo → List Bytes → Type 0
Finds sw s infos others = All (λ a. contains (ids infos) a ≡ listens (sw.table a) a s) others

search-Finds :
    (sw : Swarm) (b : Bytes) (s : ℕ) (infos : List PeerInfo) (others : List Bytes)
    → Inv sw
    → AreCurrent sw b others
    → ((q : Bytes) → contains (ids infos) q ≡ (not (b == q) && listens (sw.table b) q s))
    → Finds sw s infos others
search-Finds sw b s infos [] inv h f = tt
search-Finds sw b s infos (a ∷ others) inv h f = (
  f a
      ∙ ground
          (arith, h.0.0, current_view inv a b h.0.0 h.0.1 s, bytes_beq_iff a b, bytes_beq_iff b a),
  search-Finds sw b s infos others inv h.1 f,
)

-- In a network that may lose, delay, repeat and reorder messages, but delivers only what the
-- sender has published, and to others only: from every state that announcements and handled
-- messages lead to, for a node and any list of other nodes, of each of which it has handled last
-- what that one published last, FindPeers of a shard below 100, named by its number or by its
-- topic, returns at the node without changing it, does not find the node itself, and finds one of
-- the others exactly when that one lists the shard as its own preference.
pub find_peers-agreement :
    {sw : Swarm}
    → Reach new_swarm sw
    → (net : Network) (n : Node net) (others : List Bytes) (s : ℕ) (topic : Bytes)
    → AreCurrent sw net.host_id others
    → n.shard_pref_table ≡ sw.table net.host_id
    → s < num_shards
    → Names s topic
    → (infos : List PeerInfo) × (global_find_peers net topic n ≡ (ok infos, n))
      × (contains (ids infos) net.host_id ≡ false)
      × Finds sw s infos others
find_peers-agreement {sw} r net n others s topic h table lt named =
    let b = net.host_id in
    let inv = Reach-Inv new_swarm-Inv r in
    let (infos, returned, members) =
      global_find_peers_lem net n s topic (rw table (inv.tables b)) lt named in
    (
      infos,
      returned,
      members b ∙ rw (==_refl b),
      search-Finds sw b s infos others inv h
          (λ q. members q ∙ ap (λ t. not (b == q) && listens t q s) table),
    )
