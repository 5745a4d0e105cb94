-- ===== src/Cli/Total.antt =====
-- cli.go and rpcserver.go: the commands subshard and unsubshard succeed, and what they change is
-- what getsubshard shows.
use sharding_p2p_poc.Prelude.{
  ℕ, ◌<◌, ◌^◌, pos, Bytes, bytes_eq, nat_eq, not, ◌||◌, ◌&&◌, contains, ==_refl, Bool, ap, ◌∙◌, ◌≡◌,
  arith, List, ◌∷◌, Option, none, All, true,
}
use sharding_p2p_poc.Outcome.{Outcome, ok, Error}
use sharding_p2p_poc.Shards.{num_shards}
use sharding_p2p_poc.Shards.View.Listing.{shard_list, shard_list-ext}
use sharding_p2p_poc.PrefTable.View.{listens, IsTable}
use sharding_p2p_poc.Messages.{Codecs}
use sharding_p2p_poc.Network.{Network}
use sharding_p2p_poc.State.{Node}
use sharding_p2p_poc.Discovery.{Discovery}
use sharding_p2p_poc.Discovery.Laws.{ShardDiscovery}
use sharding_p2p_poc.Requests.{Streams}
use sharding_p2p_poc.Bootstrap.{Addresses}
use sharding_p2p_poc.Rpc.{Dial}
use sharding_p2p_poc.Manager.Calm.{IsCalm, IsCalmDiscovery}
use sharding_p2p_poc.Server.Hosts.{Keys}
use sharding_p2p_poc.Server.Service.{Service}
use sharding_p2p_poc.Server.Calm.{subscribe_shard-total, unsubscribe_shard-total}
use sharding_p2p_poc.Cli.Calls.{shard_ids, Json, printed}
use sharding_p2p_poc.Cli.Sessions.{
  sub_shard, unsub_shard, get_sub_shard, Dials, run, run-sub_shard, run-unsub_shard,
  subscribed-shown, unsubscribed-shown,
}

module _ (net : Network) (d : Discovery (Node net)) (codecs : Codecs) (keys : Keys)
    (addresses : Addresses) (streams : Streams net.World) (unavailable : Error) (json : Json)
    (dial : Dial (Service net)) (rpc_addr : Bytes)
    (c : Dials net d codecs keys addresses streams unavailable json dial rpc_addr)
    (calm : IsCalm net) (finds : IsCalmDiscovery net d) (laws : ShardDiscovery net d) where
  open net use {host_id}

  abbrev typed : List Bytes → Service net → Outcome (Option Bytes) × Service net
  typed = run net d codecs keys addresses streams unavailable json dial rpc_addr

  -- With calm libraries, a calm discovery service that keeps its contract, and a connection to a
  -- running server whose table is well formed: for a number below 2 ^ 63 and at least one shard
  -- below 100, the command subshard succeeds and prints nothing, and the command getsubshard then
  -- prints, in ascending order, the shards that were named or that the host listened to before.
  pub subscribed-listed :
      (s : Service net) (num id : ℕ) (ids : List ℕ)
      → s.running ≡ true
      → IsTable s.node.shard_pref_table
      → num < 2 ^ 63
      → All (λ t. t < num_shards) (id ∷ ids)
      → ((typed (sub_shard num (id ∷ ids)) s).0 ≡ ok none)
        × ((typed get_sub_shard (typed (sub_shard num (id ∷ ids)) s).1).0
            ≡ printed json (
                shard_ids (
                  shard_list
                    (λ t. contains (id ∷ ids) t || listens s.node.shard_pref_table host_id t))))
  subscribed-listed s num id ids on w lt h =
      let e =
        run-sub_shard net d codecs keys addresses streams unavailable json dial rpc_addr c s num id
          ids on lt h in
      let t = subscribe_shard-total net d calm finds laws s.node (pos num) (id ∷ ids) w h in
      subscribed-shown net d codecs keys addresses streams unavailable json dial rpc_addr c laws s
        num id ids on w lt h (λ p. absurd (ground (arith, rw (e, t.0) at p)))

  -- With calm libraries, a calm discovery service that keeps its contract, and a connection to a
  -- running server whose table is well formed: for at least one shard below 100, the command
  -- unsubshard succeeds and prints nothing, and the command getsubshard then prints, in ascending
  -- order, the shards that the host listened to before and that were not named.
  pub unsubscribed-listed :
      (s : Service net) (id : ℕ) (ids : List ℕ)
      → s.running ≡ true
      → IsTable s.node.shard_pref_table
      → All (λ t. t < num_shards) (id ∷ ids)
      → ((typed (unsub_shard (id ∷ ids)) s).0 ≡ ok none)
        × ((typed get_sub_shard (typed (unsub_shard (id ∷ ids)) s).1).0
            ≡ printed json (
                shard_ids (
                  shard_list (λ t.
                    not (contains (id ∷ ids) t) && listens s.node.shard_pref_table host_id t))))
  unsubscribed-listed s id ids on w h =
      let e =
        run-unsub_shard net d codecs keys addresses streams unavailable json dial rpc_addr c s id
          ids on h in
      let t = unsubscribe_shard-total net d calm finds laws s.node (id ∷ ids) w h in
      unsubscribed-shown net d codecs keys addresses streams unavailable json dial rpc_addr c laws s
        id ids on w h (λ p. absurd (ground (arith, rw (e, t.0) at p)))

  -- What a command leaves: a running server with a well-formed table, in which the host listens to
  -- given shards.
  record Serving (shards : ℕ → Bool) (s : Service net) : Type 0 where
    running : s.running ≡ true
    is_table : IsTable s.node.shard_pref_table
    own : (t : ℕ) → listens s.node.shard_pref_table host_id t ≡ shards t

  subscribed-Serving :
      (s : Service net) (num id : ℕ) (ids : List ℕ)
      → s.running ≡ true
      → IsTable s.node.shard_pref_table
      → num < 2 ^ 63
      → All (λ t. t < num_shards) (id ∷ ids)
      → Serving
          (λ t. contains (id ∷ ids) t || listens s.node.shard_pref_table host_id t)
          (typed (sub_shard num (id ∷ ids)) s).1
  subscribed-Serving s num id ids on w lt h =
      let t = subscribe_shard-total net d calm finds laws s.node (pos num) (id ∷ ids) w h in
      rw
        (run-sub_shard net d codecs keys addresses streams unavailable json dial rpc_addr c s num id
          ids on lt h)
        (record {
          running = on;
          is_table = t.1.is_table;
          own = λ k. t.1.relation host_id k ∙ rw (==_refl host_id);
        })

  -- If no library call panics and pubsub lists a topic's peers once each, with a discovery service
  -- that does not panic and keeps its contract, and a connection to a running server whose table
  -- is well formed: for a number below 2 ^ 63 and two lists, not empty, of shards below 100, the
  -- command subshard of the first and then the command unsubshard of the second both succeed and
  -- print nothing, and the command getsubshard then prints, in ascending order, the shards that
  -- were in the first list or that the host listened to before, without those of the second.
  pub commands-listed :
      (s : Service net) (num a : ℕ) (xs : List ℕ) (b : ℕ) (ys : List ℕ)
      → s.running ≡ true
      → IsTable s.node.shard_pref_table
      → num < 2 ^ 63
      → All (λ t. t < num_shards) (a ∷ xs)
      → All (λ t. t < num_shards) (b ∷ ys)
      → ((typed (sub_shard num (a ∷ xs)) s).0 ≡ ok none)
        × ((typed (unsub_shard (b ∷ ys)) (typed (sub_shard num (a ∷ xs)) s).1).0 ≡ ok none)
        × ((typed get_sub_shard
              (typed (unsub_shard (b ∷ ys)) (typed (sub_shard num (a ∷ xs)) s).1).1).0
            ≡ printed json (
                shard_ids (
                  shard_list (λ t.
                    not (contains (b ∷ ys) t)
                    && (contains (a ∷ xs) t || listens s.node.shard_pref_table host_id t)))))
  commands-listed s num a xs b ys on w lt ha hb =
      let m = typed (sub_shard num (a ∷ xs)) s in
      let mid = subscribed-Serving s num a xs on w lt ha in
      let (silent, shown) = unsubscribed-listed m.1 b ys mid.running mid.is_table hb in
      (
        (subscribed-listed s num a xs on w lt ha).0,
        silent,
        shown
            ∙ ap (λ l. printed json (shard_ids l))
                (shard_list-ext _ _
                  (λ t lt'. ap (λ x. not (contains (b ∷ ys) t) && x) (mid.own t))),
      )
