-- ===== src/Cli/Searches.antt =====
-- rpcserver.go, lines 130 to 168, and cli.go, lines 204 to 236: what the command discovershard prints.
use sharding_p2p_poc.Prelude.{
  ℕ, ◌<◌, pos, Bytes, bytes_eq, nat_eq, nat_beq, nat_beq_iff, bytes_beq_iff, codes, Bool, true,
  false, not, ◌&&◌, ◌==◌, ==_refl, contains, ◌≡◌, refl, sym, subst, ap, ◌∙◌, arith, List, [], ◌∷◌,
  Option, none, some, map, All, if◌then◌else◌, Bool-cases, inl, inr,
}
use sharding_p2p_poc.Prelude.Assoc.{Assoc, lookup, insert, lookup-insert, Distinct, insert-Distinct}
use sharding_p2p_poc.Outcome.{ok, Error}
use sharding_p2p_poc.Text.{format_int, get_collations_topic, parse_int}
use sharding_p2p_poc.Text.Decimal.{parse_int-format_int}
use sharding_p2p_poc.Text.Topics.{shard_topic_to_shard_id_topic}
use sharding_p2p_poc.Shards.{num_shards}
use sharding_p2p_poc.PrefTable.View.{listens, IsTable}
use sharding_p2p_poc.Messages.{Codecs, Peers}
use sharding_p2p_poc.Peers.{peer_ids_to_pb_peers}
use sharding_p2p_poc.Network.{Network}
use sharding_p2p_poc.State.{Node}
use sharding_p2p_poc.Discovery.{new_global_table}
use sharding_p2p_poc.Discovery.Find.{ids}
use sharding_p2p_poc.Requests.{Streams}
use sharding_p2p_poc.Bootstrap.{Addresses}
use sharding_p2p_poc.Manager.Sync.{same_topic}
use sharding_p2p_poc.Rpc.{Dial}
use sharding_p2p_poc.Server.Preferences.{discover_shard}
use sharding_p2p_poc.Server.Hosts.{Keys}
use sharding_p2p_poc.Server.Search.{
  topic_of, answers, entry_of, found, discover_loop-answers, lookup-answers, contains-found,
}
use sharding_p2p_poc.Server.Service.{Service, served, poc_server}
use sharding_p2p_poc.Cli.{shard_peers_loop}
use sharding_p2p_poc.Cli.Requests.{run_client-shards}
use sharding_p2p_poc.Cli.Calls.{peer_lists, Json, printed, call_rpc_discover, client}
use sharding_p2p_poc.Cli.Sessions.{Dials, small_ids}

abbrev pub text_of : ℕ → Bytes
text_of s = format_int (pos s)

same_number : (s t : ℕ) → s < num_shards → t < num_shards → text_of s ≡ text_of t → s ≡ t
same_number s t hs ht e = numbers (
    sym (parse_int-format_int (pos s) (omega arith))
    ∙ ap parse_int e
    ∙ parse_int-format_int (pos t) (omega arith))
  where
    numbers : ok (pos s) ≡ ok (pos t) → s ≡ t
    numbers p = cc

same_text : (s t : ℕ) → s < num_shards → t < num_shards → (text_of s == text_of t) ≡ nat_beq s t
same_text s t hs ht = elim (Bool-cases (nat_beq s t)) [
  | inl e ↦ ground (arith, e, ==_refl (text_of s), (nat_beq_iff s t).0 e)
  | inr e ↦ ground (arith, e, bytes_beq_iff (text_of s) (text_of t), same_number s t hs ht)
]

-- Every key is the topic of a shard.
abbrev Keyed : Assoc Bytes Peers → Type 0
Keyed m = All (λ (entry : Bytes × Peers). (s : ℕ) × (s < num_shards) × (entry.0 ≡ topic_of s)) m

insert-Keyed :
    (s : ℕ) (v : Peers) (m : Assoc Bytes Peers)
    → s < num_shards
    → Keyed m
    → Keyed (insert (topic_of s) v m)
unfolding insert
insert-Keyed s v [] h k = ((s, h, refl), tt)
insert-Keyed s v ((j, w) ∷ m) h k = elim (Bool-cases (j == topic_of s)) [
  | inl on ↦ rw on ((s, h, refl), k.1)
  | inr off ↦ rw off (k.0, insert-Keyed s v m h k.1)
]

-- The texts of the peers of a topic, if it was answered
abbrev texts : Option Peers → Option (List Bytes) → Option (List Bytes)
texts none known = known
texts (some v) known = some v.peers

texts_if :
    (m : Assoc Bytes Peers) (t : ℕ) (b : Bool) (v : Peers)
    → lookup (topic_of t) m ≡ (if b then some v else lookup (topic_of t) [])
    → texts (lookup (topic_of t) m) (lookup (text_of t) []) ≡ (if b then some v.peers else none)
unfolding lookup
texts_if m t true v e = rw e
texts_if m t false v e = rw e

shard_peers_loop_lem :
    (m : Assoc Bytes Peers) (acc : Assoc Bytes (List Bytes)) (t : ℕ)
    → Keyed m
    → Distinct m
    → t < num_shards
    → lookup (text_of t) (shard_peers_loop m acc)
      ≡ texts (lookup (topic_of t) m) (lookup (text_of t) acc)
unfolding shard_peers_loop lookup
shard_peers_loop_lem [] acc t k u h = refl
shard_peers_loop_lem ((topic, v) ∷ m) acc t k u h =
    let (s, hs, e) = k.0 in
    let put = insert (text_of s) v.peers acc in
    let rec = shard_peers_loop_lem m put t k.1 u.1 h in
    let absent : lookup (topic_of s) m ≡ none = subst (λ q. lookup q m ≡ none) e u.0 in
    rw (e, shard_topic_to_shard_id_topic (pos s))
      (elim (Bool-cases (nat_beq s t)) [
        | inl on ↦ ground (
          arith,
          on,
          rec,
          absent,
          same_topic s t hs h,
          same_text s t hs h,
          lookup-insert (text_of s) (text_of t) v.peers acc,
          nat_beq_iff s t,
        )
        | inr off ↦ ground (
          arith,
          off,
          rec,
          same_topic s t hs h,
          same_text s t hs h,
          lookup-insert (text_of s) (text_of t) v.peers acc,
        )
      ])

abbrev pub discover_shards : List ℕ → List Bytes
discover_shards ids = codes "discovershard" ∷ map format_int (map pos ids)

map-topic_of : (ids : List ℕ) → map get_collations_topic (map pos ids) ≡ map topic_of ids
map-topic_of [] = refl
map-topic_of (s ∷ ids) = ap (λ q. topic_of s ∷ q) (map-topic_of ids)

module _ (net : Network) (codecs : Codecs) where
  answers-Keyed :
      (n : Node net) (w : IsTable n.shard_pref_table) (shards : List ℕ) (acc : Assoc Bytes Peers)
      → All (λ s. s < num_shards) shards
      → Keyed acc
      → Distinct acc
      → Keyed (answers net codecs n w shards acc) × Distinct (answers net codecs n w shards acc)
  unfolding answers
  answers-Keyed n w [] acc h k u = (k, u)
  answers-Keyed n w (s ∷ shards) acc h k u =
      answers-Keyed n w shards (insert (topic_of s) (entry_of net codecs n w s) acc) h.1
        (insert-Keyed s (entry_of net codecs n w s) acc h.0 k)
        (insert-Distinct (topic_of s) (entry_of net codecs n w s) acc u)

  module _ (keys : Keys) (addresses : Addresses) (streams : Streams net.World) (unavailable : Error)
      (json : Json) (dial : Dial (Service net)) (rpc_addr : Bytes) where
    open net use {host_id}

    run-discover_shards :
        Dials net
          (new_global_table net)
          codecs
          keys
          addresses
          streams
          unavailable
          json
          dial
          rpc_addr
        → (s : Service net) (w : IsTable s.node.shard_pref_table) (id : ℕ) (rest : List ℕ)
        → s.running ≡ true
        → All (λ t. t < num_shards) (id ∷ rest)
        → client json dial rpc_addr codecs (discover_shards (id ∷ rest)) s ≡ (
          printed json
              (peer_lists (shard_peers_loop (answers net codecs s.node w (id ∷ rest) []) [])),
          s,
        )
    unfolding client call_rpc_discover poc_server served discover_shard
    run-discover_shards c s w id rest on h =
        let parsed =
          run_client-shards codecs 0 (pos id) (map pos rest) (omega arith)
            (small_ids (id ∷ rest) h) in
        rw (
          parsed.2,
          map-topic_of (id ∷ rest),
          c.dials s,
          on,
          discover_loop-answers net codecs s.node w (id ∷ rest) [] h,
        )

    -- With a connection to a running server whose table is well formed, over the global table, the
    -- command discovershard of at least one shard, all below 100, changes nothing and prints a map
    -- that has, of the shards below 100, those that were named, each with the texts of a list in
    -- which a peer stands exactly when it listens to the shard and is not the host.
    pub discovered-shown :
        Dials net
          (new_global_table net)
          codecs
          keys
          addresses
          streams
          unavailable
          json
          dial
          rpc_addr
        → (s : Service net) (id : ℕ) (rest : List ℕ) → s.running ≡ true
        → IsTable s.node.shard_pref_table
        → All (λ t. t < num_shards) (id ∷ rest)
        → (shown : Assoc Bytes (List Bytes)) × (peers : ℕ → List Bytes) × (client json dial rpc_addr
              codecs
              (discover_shards (id ∷ rest))
              s
            ≡ (printed json (peer_lists shown), s))
          × ((t : ℕ)
              → t < num_shards
              → lookup (text_of t) shown ≡ (
                  if contains (id ∷ rest) t
                  then some (peer_ids_to_pb_peers codecs (peers t)).peers
                  else none))
          × ((t : ℕ) (q : Bytes)
              → contains (peers t) q ≡ (not (host_id == q) && listens s.node.shard_pref_table q t))
    discovered-shown c s id rest on w h =
        let m = answers net codecs s.node w (id ∷ rest) [] in
        let k = answers-Keyed s.node w (id ∷ rest) [] h tt tt in
        (
          shard_peers_loop m [],
          λ t. ids (found net codecs s.node w t),
          run-discover_shards c s w id rest on h,
          λ t ht.
              shard_peers_loop_lem m [] t k.0 k.1 ht
              ∙ texts_if m t (contains (id ∷ rest) t) (entry_of net codecs s.node w t)
                  (lookup-answers net codecs s.node w (id ∷ rest) [] t h ht),
          contains-found net codecs s.node w,
        )
