-- ===== src/Cli/Sessions.antt =====
-- The client and the server joined: what a user of cli.go sees of the node behind rpcserver.go. The
-- connection is one to the server, as `grpc.Dial` documents.
use sharding_p2p_poc.Prelude.{
  ℕ, ◌<◌, ◌^◌, pos, Bytes, bytes_eq, nat_eq, bytes_beq, codes, true, not, ◌||◌, ◌&&◌, ==_refl,
  contains, ◌≡◌, ◌≢◌, refl, ap, ◌∙◌, arith, List, [], ◌∷◌, Option, none, map, All, IsInt64,
}
use sharding_p2p_poc.Outcome
use sharding_p2p_poc.Outcome.{Outcome, ok, fail, panic, Error, returns, fails, panics, ending}
use sharding_p2p_poc.Text.{format_int, format_uint}
use sharding_p2p_poc.Shards.{num_shards}
use sharding_p2p_poc.Shards.View.Listing.{shard_list, shard_list-ext}
use sharding_p2p_poc.PrefTable.View.{listens, IsTable}
use sharding_p2p_poc.PrefTable.Ops.{get_peer_listening_shard_slice_lem}
use sharding_p2p_poc.Messages.{Codecs}
use sharding_p2p_poc.Network.{Network}
use sharding_p2p_poc.State.{Node}
use sharding_p2p_poc.Discovery.{Discovery}
use sharding_p2p_poc.Discovery.Laws.{ShardDiscovery}
use sharding_p2p_poc.Requests.{Streams}
use sharding_p2p_poc.Bootstrap.{Addresses}
use sharding_p2p_poc.Manager.{get_listening_shards}
use sharding_p2p_poc.Rpc.{Dial}
use sharding_p2p_poc.Server.Preferences.{subscribe_shard, unsubscribe_shard, get_subscribed_shard}
use sharding_p2p_poc.Server.Hosts.{Keys}
use sharding_p2p_poc.Server.Laws.{subscribe_shard-Joined}
use sharding_p2p_poc.Server.Leaving.{unsubscribe_shard-Left}
use sharding_p2p_poc.Server.Service.{Service, served, poc_server}
use sharding_p2p_poc.Cli.{run_client, or_fatal}
use sharding_p2p_poc.Cli.Requests.{run_client-shards}
use sharding_p2p_poc.Cli.Calls.{
  shard_ids, Json, printed, call_rpc_subscribe_shard, call_rpc_unsubscribe_shard,
  call_rpc_get_subscribed_shard, client,
}

-- The IDs of shards in range are int64.
pub small_ids : (ids : List ℕ) → All (λ s. s < num_shards) ids → All IsInt64 (map pos ids)
small_ids [] h = tt
small_ids (s ∷ ids) h = (omega arith, small_ids ids h.1)

abbrev pub sub_shard : ℕ → List ℕ → List Bytes
sub_shard num ids = codes "subshard" ∷ format_uint num ∷ map format_int (map pos ids)

abbrev pub unsub_shard : List ℕ → List Bytes
unsub_shard ids = codes "unsubshard" ∷ map format_int (map pos ids)

abbrev pub get_sub_shard : List Bytes
get_sub_shard = codes "getsubshard" ∷ []

module _ (net : Network) (d : Discovery (Node net)) (codecs : Codecs) (keys : Keys)
    (addresses : Addresses) (streams : Streams net.World) (unavailable : Error) (json : Json)
    (dial : Dial (Service net)) (rpc_addr : Bytes) where
  open net use {host_id}

  -- A connection is one to the server.
  pub record Dials : Type 0 where
    pub dials :
        (s : Service net)
        → dial rpc_addr s ≡ (ok (poc_server net d codecs keys addresses streams unavailable), s)

  abbrev pub run : List Bytes → Service net → Outcome (Option Bytes) × Service net
  run args = client json dial rpc_addr codecs args

  module _ (c : Dials) where
    pub run-sub_shard :
        (s : Service net) (num id : ℕ) (ids : List ℕ)
        → s.running ≡ true
        → num < 2 ^ 63
        → All (λ t. t < num_shards) (id ∷ ids)
        → run (sub_shard num (id ∷ ids)) s ≡ (
          Outcome.◌>>=◌
              (or_fatal (subscribe_shard net d (pos num) (map pos (id ∷ ids)) s.node).0)
              λ u. ok none,
          record s { node = (subscribe_shard net d (pos num) (map pos (id ∷ ids)) s.node).1 },
        )
    unfolding client call_rpc_subscribe_shard poc_server served
    run-sub_shard s num id ids on lt h =
        rw
          (
            (run_client-shards codecs num (pos id) (map pos ids) lt (small_ids (id ∷ ids) h)).0,
            c.dials s,
            on,
          )
          (elim (ending (subscribe_shard net d (pos num) (map pos (id ∷ ids)) s.node).0) [
            | returns u e ↦ rw e
            | fails err e ↦ rw e
            | panics e ↦ rw e
          ])

    pub run-unsub_shard :
        (s : Service net) (id : ℕ) (ids : List ℕ)
        → s.running ≡ true
        → All (λ t. t < num_shards) (id ∷ ids)
        → run (unsub_shard (id ∷ ids)) s ≡ (
          Outcome.◌>>=◌
              (or_fatal (unsubscribe_shard net d (map pos (id ∷ ids)) s.node).0)
              λ u. ok none,
          record s { node = (unsubscribe_shard net d (map pos (id ∷ ids)) s.node).1 },
        )
    unfolding client call_rpc_unsubscribe_shard poc_server served
    run-unsub_shard s id ids on h =
        let parsed =
          run_client-shards codecs 0 (pos id) (map pos ids) (omega arith)
            (small_ids (id ∷ ids) h) in
        rw (parsed.1, c.dials s, on)
          (elim (ending (unsubscribe_shard net d (map pos (id ∷ ids)) s.node).0) [
            | returns u e ↦ rw e
            | fails err e ↦ rw e
            | panics e ↦ rw e
          ])

    get_listening_shards_lem :
        (n : Node net)
        → IsTable n.shard_pref_table
        → get_listening_shards net n ≡ (ok (shard_list (listens n.shard_pref_table host_id)), n)
    unfolding get_listening_shards
    get_listening_shards_lem n w =
        rw (get_peer_listening_shard_slice_lem n.shard_pref_table host_id w)

    pub run-get_sub_shard :
        (s : Service net)
        → s.running ≡ true
        → IsTable s.node.shard_pref_table
        → run get_sub_shard s
          ≡ (printed json (shard_ids (shard_list (listens s.node.shard_pref_table host_id))), s)
    unfolding client run_client call_rpc_get_subscribed_shard poc_server served get_subscribed_shard
        bytes_beq
    run-get_sub_shard s on w = rw (c.dials s, on, get_listening_shards_lem s.node w)

    -- With a connection to a running server whose table is well formed and whose discovery service
    -- keeps its contract, for a number below 2 ^ 63 and at least one shard below 100: if the
    -- command subshard does not end the client's process, it prints nothing, and the command
    -- getsubshard then prints, in ascending order, the shards that were named or that the host
    -- listened to before.
    pub subscribed-shown :
        ShardDiscovery net d
        → (s : Service net) (num id : ℕ) (ids : List ℕ) → s.running ≡ true
        → IsTable s.node.shard_pref_table
        → num < 2 ^ 63
        → All (λ t. t < num_shards) (id ∷ ids)
        → (run (sub_shard num (id ∷ ids)) s).0 ≢ panic
        → ((run (sub_shard num (id ∷ ids)) s).0 ≡ ok none)
          × ((run get_sub_shard (run (sub_shard num (id ∷ ids)) s).1).0
              ≡ printed json (
                  shard_ids (
                    shard_list
                      (λ t. contains (id ∷ ids) t || listens s.node.shard_pref_table host_id t))))
    subscribed-shown laws s num id ids on w lt h p =
        let e = run-sub_shard s num id ids on lt h in
        let n = (subscribe_shard net d (pos num) (map pos (id ∷ ids)) s.node) in
        let j =
          subscribe_shard-Joined net d laws s.node (pos num) (id ∷ ids) w h (λ q. p (rw (e, q))) in
        let shown = run-get_sub_shard (record s { node = n.1 }) on j.1.is_table in
        rw (e, j.0)
          (
            refl,
            rw shown (
                ap (λ l. printed json (shard_ids l))
                  (shard_list-ext _ _ (λ t lt'. j.1.relation host_id t ∙ rw (==_refl host_id)))),
          )

    -- With a connection to a running server whose table is well formed and whose discovery service
    -- keeps its contract, for at least one shard below 100: if the command unsubshard does not end
    -- the client's process, it prints nothing, and the command getsubshard then prints, in
    -- ascending order, the shards that the host listened to before and that were not named.
    pub unsubscribed-shown :
        ShardDiscovery net d
        → (s : Service net) (id : ℕ) (ids : List ℕ) → s.running ≡ true
        → IsTable s.node.shard_pref_table
        → All (λ t. t < num_shards) (id ∷ ids)
        → (run (unsub_shard (id ∷ ids)) s).0 ≢ panic
        → ((run (unsub_shard (id ∷ ids)) s).0 ≡ ok none)
          × ((run get_sub_shard (run (unsub_shard (id ∷ ids)) s).1).0
              ≡ printed json (
                  shard_ids (
                    shard_list (λ t.
                      not (contains (id ∷ ids) t) && listens s.node.shard_pref_table host_id t))))
    unsubscribed-shown laws s id ids on w h p =
        let e = run-unsub_shard s id ids on h in
        let n = (unsubscribe_shard net d (map pos (id ∷ ids)) s.node) in
        let l = unsubscribe_shard-Left net d laws s.node (id ∷ ids) w h (λ q. p (rw (e, q))) in
        let shown = run-get_sub_shard (record s { node = n.1 }) on l.1.is_table in
        rw (e, l.0)
          (
            refl,
            rw shown (
                ap (λ k. printed json (shard_ids k))
                  (shard_list-ext _ _ (λ t lt. l.1.relation host_id t ∙ rw (==_refl host_id)))),
          )
