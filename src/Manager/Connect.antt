-- ===== src/Manager/Connect.antt =====
-- `connectShardNodes`: which peers the host dials. All tests for a connection are made before the
-- dials, which run in goroutines of their own and whose errors are only logged.
pub mod Bounds
pub mod Frame
use sharding_p2p_poc.Prelude.{
  ℕ, zero, suc, ◌+◌, ◌-◌, ℤ, pos, negsuc, Bytes, bytes_eq, Bool, true, false, not, List, [], ◌∷◌,
  ◌++◌, Option, none, some, contains, keep_if, length, take, drop, nat_beq, leb, leb_ℤ, pos_part,
  ◌-ℤ◌, if◌then◌else◌,
}
use sharding_p2p_poc.Outcome.{Outcome, ok, fail, panic}
use sharding_p2p_poc.Exec.{Exec, pure, lift, gets, attempt, ◌>>=◌, ◌>>◌}
use sharding_p2p_poc.Text.{format_int, get_collations_topic}
use sharding_p2p_poc.Network.{Network, PeerInfo}
use sharding_p2p_poc.State.{Node, external}
use sharding_p2p_poc.Discovery.{Discovery}

-- mapConnectedPIDs: each peer once
unfoldable pub peer_set : List Bytes → List Bytes
unfolding contains
peer_set [] = []
peer_set (p ∷ peers) = let rest = peer_set peers in if contains rest p then rest else p ∷ rest

-- The peers found that we are not connected to.
abbrev pub unconnected : List Bytes → List PeerInfo → List PeerInfo
unconnected connected = keep_if (λ (p : PeerInfo). not (contains connected p.id))

-- append(pinfos[:index], pinfos[index+1:]...)
abbrev pub remove_at : ℕ → List PeerInfo → List PeerInfo
remove_at index pinfos = take index pinfos ++ drop (suc index) pinfos

-- difCount, as a number of rounds: a loop up to a negative bound runs no round.
abbrev pub dif_count : ℕ → ℤ → ℕ → ℕ
dif_count found num connected = pos_part (pos found -ℤ (num -ℤ pos connected))

module _ (net : Network) where
  open net use {World, host_id, list_peers, conns_to_peer, connect, intn}

  -- rand.Intn(n), which panics unless 0 < n
  abbrev random : ℕ → Exec (Node net) ℕ
  random zero n = (panic, n)
  random (suc k) n = (ok (intn (suc k) n.world).0, record n { world = (intn (suc k) n.world).1 })

  -- The loop that drops peers at random, with the rounds that are left.
  unfoldable pub drop_random : ℕ → List PeerInfo → Exec (Node net) (List PeerInfo)
  drop_random zero pinfos = pure pinfos
  drop_random (suc left) pinfos = do
    index ← random (length pinfos)
    drop_random left (remove_at index pinfos)

  abbrev pub is_connected : World → PeerInfo → Bool
  is_connected w p = not (nat_beq (conns_to_peer p.id w) 0)

  -- The goroutines, in the order in which they are started.
  unfoldable pub connect_all : List PeerInfo → Exec (Node net) (Unit {0})
  connect_all [] = pure tt
  connect_all (p ∷ pinfos) = do _ ← attempt (external net (connect p)); connect_all pinfos

  module _ (discovery : Discovery (Node net)) where
    open discovery use {find_peers}

    unfoldable pub connect_shard_nodes : ℤ → ℤ → Exec (Node net) (Unit {0})
    unfolding peer_set
    connect_shard_nodes num_shard_peer_to_connect shard_id = do
      connected_pids ← gets (λ n. list_peers (get_collations_topic shard_id) n.world)
      let enough = leb_ℤ num_shard_peer_to_connect (pos (length (peer_set connected_pids)))
      if enough then pure tt else do
        found_peers ← find_peers (format_int shard_id)
        let pinfos = unconnected (peer_set connected_pids) found_peers
        kept ←
            drop_random
              (dif_count (length pinfos) num_shard_peer_to_connect (length connected_pids)) pinfos
        dialled ← gets (λ n. keep_if (λ p. not (is_connected n.world p)) kept)
        connect_all dialled
