-- ===== src/Manager/Connect/Bounds.antt =====
-- shardmanager.go, lines 93 to 167: how many peers `connectShardNodes` chooses, and which.
use sharding_p2p_poc.Prelude.{
  ℕ, zero, suc, ◌+◌, ◌-◌, ◌≤◌, ◌<◌, ℤ, pos, Bytes, bytes_eq, bytes_beq_iff, Bool, true, false, not,
  ◌≡◌, refl, arith, List, [], ◌∷◌, All, contains, keep_if, length, leb_ℤ,
}
use Prim.Native.Nat.{min}
use sharding_p2p_poc.Outcome.{ok}
use sharding_p2p_poc.Text.{format_int, get_collations_topic}
use sharding_p2p_poc.Network.{Network, PeerInfo}
use sharding_p2p_poc.State.{Node, OnlyWorld}
use sharding_p2p_poc.Discovery.{Discovery}
use sharding_p2p_poc.Manager.Connect.{
  peer_set, unconnected, remove_at, drop_random, connect_all, is_connected, dif_count,
  connect_shard_nodes,
}

-- No peer stands twice.
abbrev pub AllDifferent : List Bytes → Type 0
AllDifferent [] = Unit
AllDifferent (p ∷ peers) = (contains peers p ≡ false) × AllDifferent peers

pub contains-peer_set :
    (peers : List Bytes) (q : Bytes) → contains (peer_set peers) q ≡ contains peers q
unfolding peer_set contains
contains-peer_set [] q = refl
contains-peer_set (p ∷ peers) q =
    ground (arith, contains-peer_set peers p, contains-peer_set peers q, bytes_beq_iff p q)

pub length-peer_set :
    (peers : List Bytes) → AllDifferent peers → length (peer_set peers) ≡ length peers
unfolding peer_set
length-peer_set [] d = refl
length-peer_set (p ∷ peers) d = ground (arith, contains-peer_set peers p, length-peer_set peers d.1)

module _ (P : PeerInfo → Type 0) where
  All-remove_at : (i : ℕ) (pinfos : List PeerInfo) → All P pinfos → All P (remove_at i pinfos)
  All-remove_at zero [] h = tt
  All-remove_at zero (p ∷ pinfos) h = h.1
  All-remove_at (suc i) [] h = tt
  All-remove_at (suc i) (p ∷ pinfos) h = (h.0, All-remove_at i pinfos h.1)

  All-keep_if :
      (test : PeerInfo → Bool) (pinfos : List PeerInfo) → All P pinfos → All P (keep_if test pinfos)
  All-keep_if test [] h = tt
  All-keep_if test (p ∷ pinfos) h = ground (arith, All-keep_if test pinfos h.1)

kept_pass :
    (test : PeerInfo → Bool) (pinfos : List PeerInfo)
    → All (λ p. test p ≡ true) (keep_if test pinfos)
kept_pass test [] = tt
kept_pass test (p ∷ pinfos) = ground (arith, kept_pass test pinfos)

length-keep_if-le :
    (test : PeerInfo → Bool) (pinfos : List PeerInfo) → length (keep_if test pinfos) ≤ length pinfos
length-keep_if-le test [] = omega arith
length-keep_if-le test (p ∷ pinfos) = ground (arith, length-keep_if-le test pinfos)

length-remove_at :
    (i : ℕ) (pinfos : List PeerInfo)
    → i < length pinfos
    → length (remove_at i pinfos) + 1 ≡ length pinfos
length-remove_at zero [] h = elim h [ ]
length-remove_at (suc i) [] h = elim h [ ]
length-remove_at zero (p ∷ pinfos) h = omega arith
length-remove_at (suc i) (p ∷ pinfos) h = omega (arith, length-remove_at i pinfos (omega arith))

All-map :
    (P Q : PeerInfo → Type 0) (pinfos : List PeerInfo)
    → ((p : PeerInfo) → P p → Q p)
    → All P pinfos
    → All Q pinfos
All-map P Q [] f h = tt
All-map P Q (p ∷ pinfos) f h = (f p h.0, All-map P Q pinfos f h.1)

pub dif_count-le :
    (found num connected : ℕ) → connected < num → dif_count found (pos num) connected ≤ found
dif_count-le found num connected h = ground arith

kept_count :
    (found num connected kept : ℕ)
    → connected < num
    → kept + dif_count found (pos num) connected ≡ found
    → kept ≡ min found (num - connected)
kept_count found num connected kept h e = ground arith

dif_enough :
    (num : ℕ) (peers : List Bytes)
    → num ≤ length peers
    → leb_ℤ (pos num) (pos (length peers)) ≡ true
dif_enough num peers h = ground arith

dif_not_enough :
    (num : ℕ) (peers : List Bytes)
    → length peers < num
    → leb_ℤ (pos num) (pos (length peers)) ≡ false
dif_not_enough num peers h = ground arith

module _ (net : Network) where
  open net use {World, list_peers, intn, intn-lt, connect}

  -- What the random drops leave: all but `left` of the peers, in another world.
  pub record Kept (n : Node net) (left : ℕ) (pinfos : List PeerInfo) : Type 1 where
    pub kept : List PeerInfo
    pub after : Node net
    pub run : drop_random net left pinfos n ≡ (ok kept, after)
    pub only_world : OnlyWorld net n after
    pub count : length kept + left ≡ length pinfos
    pub members : (P : PeerInfo → Type 0) → All P pinfos → All P kept

  pub drop_random_lem :
      (n : Node net) (left : ℕ) (pinfos : List PeerInfo) → left ≤ length pinfos → Kept n left pinfos
  unfolding drop_random
  drop_random_lem n zero pinfos h = record {
    kept = pinfos;
    after = n;
    run = refl;
    only_world = refl;
    count = omega arith;
    members = λ P a. a;
  }
  drop_random_lem n (suc left) [] h = absurd (omega arith)
  drop_random_lem n (suc left) (p ∷ pinfos) h =
      let i = (intn (length (p ∷ pinfos)) n.world).0 in
      let m : Node net = record n { world = (intn (length (p ∷ pinfos)) n.world).1 } in
      let lt = intn-lt (length (p ∷ pinfos)) n.world (omega arith) in
      let rest =
        drop_random_lem m left (remove_at i (p ∷ pinfos))
          (omega (arith, length-remove_at i (p ∷ pinfos) lt)) in
      record {
        kept = rest.kept;
        after = rest.after;
        run = rest.run;
        only_world = ground (arith, rest.only_world);
        count = omega (arith, rest.count, length-remove_at i (p ∷ pinfos) lt);
        members = λ P a. rest.members P (All-remove_at P i (p ∷ pinfos) a);
      }

  -- The plan of a call: the peers that it dials, and how they were chosen.
  pub record Plan (discovery : Discovery (Node net)) (n : Node net) (num : ℕ) (s : ℤ)
      (connected : List Bytes) (found : List PeerInfo) : Type 1 where
    pub kept : List PeerInfo
    pub after : Node net
    pub run :
        connect_shard_nodes net discovery (pos num) s n
        ≡ connect_all net (keep_if (λ p. not (is_connected net after.world p)) kept) after
    pub only_world : OnlyWorld net n after
    pub count :
        length kept ≡ min (length (unconnected (peer_set connected) found)) (num - length connected)
    pub new_peers : All (λ p. contains connected p.id ≡ false) kept
    pub members : (P : PeerInfo → Type 0) → All P found → All P kept

  -- While fewer than `num` peers, all different, share the shard's topic, and if the discovery
  -- service finds a list of peers without changing the node, connectShardNodes chooses peers,
  -- changing only the world, and dials those that it has no connection to. The number chosen is
  -- the smaller of the number of unconnected peers found and the number missing; each one chosen
  -- is not among the connected peers and has every property that all the peers found have.
  pub connect_shard_nodes_lem :
      (discovery : Discovery (Node net)) (n : Node net) (num : ℕ) (s : ℤ) (found : List PeerInfo)
      → AllDifferent (list_peers (get_collations_topic s) n.world)
      → length (list_peers (get_collations_topic s) n.world) < num
      → discovery.find_peers (format_int s) n ≡ (ok found, n)
      → Plan discovery n num s (list_peers (get_collations_topic s) n.world) found
  unfolding connect_shard_nodes
  connect_shard_nodes_lem discovery n num s found d lt e =
      let connected = list_peers (get_collations_topic s) n.world in
      let pinfos = unconnected (peer_set connected) found in
      let k =
        drop_random_lem n (dif_count (length pinfos) (pos num) (length connected)) pinfos
          (dif_count-le (length pinfos) num (length connected) lt) in
      record {
        kept = k.kept;
        after = k.after;
        run = ground (
          arith,
          dif_not_enough num (peer_set connected) (rw (length-peer_set connected d) lt),
          e,
          k.run,
        );
        only_world = k.only_world;
        count = kept_count (length pinfos) num (length connected) (length k.kept) lt k.count;
        new_peers =
            k.members (λ p. contains connected p.id ≡ false)
              (All-map _ _ pinfos (λ p q. ground (arith, contains-peer_set connected p.id, q))
                (kept_pass (λ (p : PeerInfo). not (contains (peer_set connected) p.id)) found));
        members = λ P a. k.members P (All-keep_if P _ found a);
      }

  -- With enough peers in the topic nothing is done.
  pub connect_shard_nodes-enough :
      (discovery : Discovery (Node net)) (n : Node net) (num : ℕ) (s : ℤ)
      → num ≤ length (peer_set (list_peers (get_collations_topic s) n.world))
      → connect_shard_nodes net discovery (pos num) s n ≡ (ok tt, n)
  unfolding connect_shard_nodes
  connect_shard_nodes-enough discovery n num s h =
      rw (dif_enough num (peer_set (list_peers (get_collations_topic s) n.world)) h)
