-- ===== src/Main/Sessions.antt =====
-- From the start of a server to what its first client sees.
use sharding_p2p_poc.Prelude.{
  ℕ, ◌<◌, ◌^◌, Bytes, bytes_eq, nat_eq, contains, ◌≡◌, ◌≢◌, ap, ◌∙◌, arith, List, ◌∷◌, Option, none,
  All, not, ◌&&◌, pos,
}
use sharding_p2p_poc.Outcome.{Outcome, ok, panic, Error}
use sharding_p2p_poc.Shards.{num_shards}
use sharding_p2p_poc.Shards.View.Listing.{shard_list, shard_list-ext}
use sharding_p2p_poc.PrefTable.Ops.{listens-new}
use sharding_p2p_poc.Messages.{Codecs}
use sharding_p2p_poc.Network.{Network}
use sharding_p2p_poc.State.{Node}
use sharding_p2p_poc.Discovery.{new_global_table}
use sharding_p2p_poc.Discovery.Laws.{new_global_table-ShardDiscovery}
use sharding_p2p_poc.Notifier.{EventNotifier, mock_event_notifier}
use sharding_p2p_poc.Requests.{Streams}
use sharding_p2p_poc.Rpc.{Dial}
use sharding_p2p_poc.Server.Service.{Service}
use sharding_p2p_poc.Cli.Calls.{Json, shard_ids, printed, client}
use sharding_p2p_poc.Manager.Calm.{IsCalm, new_global_table-IsCalmDiscovery}
use sharding_p2p_poc.Cli.Total.{commands-listed}
use sharding_p2p_poc.Cli.Sessions.{Dials, sub_shard, unsub_shard, get_sub_shard, subscribed-shown}
use sharding_p2p_poc.Main.{Flags, Libraries, start_server, address}
use sharding_p2p_poc.Main.Notifiers.{Without}
use sharding_p2p_poc.Main.Running.{LetsStart, NamesBootnodes, start_server-returns}
use sharding_p2p_poc.Main.Startup.{start_server-Started}

module _ (net : Network) (libs : Libraries net) (codecs : Codecs) (streams : Streams net.World)
    (unavailable : Error) (json : Json) (dial : Dial (Service net)) (rpc_addr : Bytes) where
  -- If the start of a server returns, and dialling its address gives a connection to it, then for
  -- a number below 2 ^ 63 and at least one shard below 100: if the client's command subshard does
  -- not end the process, it prints nothing, and the command getsubshard then prints, in ascending
  -- order, exactly the shards that were named.
  pub first_session :
      Dials net
        (new_global_table net)
        codecs
        libs.keys
        libs.addresses
        streams
        unavailable
        json
        dial
        rpc_addr
      → (f : Flags) (notifier_addr : Bytes) (notifier : EventNotifier (Node net)) (s : Service net)
      → start_server net libs codecs f rpc_addr notifier_addr ≡ ok (notifier, s)
      → (num id : ℕ) (ids : List ℕ) → num < 2 ^ 63
      → All (λ t. t < num_shards) (id ∷ ids)
      → (client json dial rpc_addr codecs (sub_shard num (id ∷ ids)) s).0 ≢ panic
      → ((client json dial rpc_addr codecs (sub_shard num (id ∷ ids)) s).0 ≡ ok none)
        × ((client json dial rpc_addr codecs get_sub_shard
              (client json dial rpc_addr codecs (sub_shard num (id ∷ ids)) s).1).0
            ≡ printed json (shard_ids (shard_list (contains (id ∷ ids)))))
  first_session c f notifier_addr notifier s e num id ids lt h p =
      let started = start_server-Started net libs codecs f rpc_addr notifier_addr notifier s e in
      let w = started.made_node in
      let (silent, shown) =
        subscribed-shown net (new_global_table net) codecs libs.keys libs.addresses streams
          unavailable json dial rpc_addr c (new_global_table-ShardDiscovery net) s num id ids
          started.running w.in_sync.is_table lt h p in
      (
        silent,
        shown
            ∙ ap (λ l. printed json (shard_ids l))
                (shard_list-ext _ _
                  (λ t lt'. rw (w.no_preferences, listens-new net.host_id t) (ground arith))),
      )

  module _ (calm : IsCalm net)
      (c : Dials net
        (new_global_table net)
        codecs
        libs.keys
        libs.addresses
        streams
        unavailable
        json
        dial
        rpc_addr) where
    abbrev typed : List Bytes → Service net → Outcome (Option Bytes) × Service net
    typed = client json dial rpc_addr codecs

    -- What a user sees of a service: the shards of the first list are subscribed to, those of the
    -- second are given up, and the shards that are left are printed.
    pub record Dialogue (s : Service net) (num x : ℕ) (xs : List ℕ) (y : ℕ) (ys : List ℕ)
        : Type 0 where
      pub subscribed : (typed (sub_shard num (x ∷ xs)) s).0 ≡ ok none
      pub unsubscribed :
          (typed (unsub_shard (y ∷ ys)) (typed (sub_shard num (x ∷ xs)) s).1).0 ≡ ok none
      pub shown :
          (typed get_sub_shard
            (typed (unsub_shard (y ∷ ys)) (typed (sub_shard num (x ∷ xs)) s).1).1).0
          ≡ printed json
              (shard_ids (shard_list (λ t. not (contains (y ∷ ys) t) && contains (x ∷ xs) t)))

    -- If the libraries let a server start, no library call of a subscription panics, pubsub lists
    -- a topic's peers once each, the bootstrap nodes, if any, are multiaddresses, the IP of the
    -- RPC server has no colon, the notifier's port is 0, and dialling the server's address gives a
    -- connection to it: then the server starts, and for a number below 2 ^ 63 and two lists, not
    -- empty, of shards below 100 the client's command subshard of the first and then unsubshard of
    -- the second both succeed and print nothing, and getsubshard then prints, in ascending order,
    -- exactly the shards that are in the first list and not in the second.
    pub whole_session :
        (f : Flags)
        → LetsStart net libs f rpc_addr
        → NamesBootnodes libs.addresses f.bootnodes
        → Without b':' f.rpc_ip
        → f.notifier_port ≡ pos 0
        → (num x : ℕ) (xs : List ℕ) (y : ℕ) (ys : List ℕ) → num < 2 ^ 63
        → All (λ t. t < num_shards) (x ∷ xs)
        → All (λ t. t < num_shards) (y ∷ ys)
        → (s : Service net) × (start_server net libs codecs f rpc_addr
              (address f.rpc_ip f.notifier_port)
            ≡ ok (mock_event_notifier, s))
          × Dialogue s num x xs y ys
    whole_session f lets texts colons zero num x xs y ys lt hx hy =
        let (s, e) = start_server-returns net libs f rpc_addr lets codecs texts colons zero in
        let started = start_server-Started net libs codecs f rpc_addr _ mock_event_notifier s e in
        let w = started.made_node in
        let (sub, unsub, shown) =
          commands-listed net (new_global_table net) codecs libs.keys libs.addresses streams
            unavailable json dial rpc_addr c calm (new_global_table-IsCalmDiscovery net calm)
            (new_global_table-ShardDiscovery net) s num x xs y ys started.running w.in_sync.is_table
            lt hx hy in
        (
          s,
          e,
          record {
            subscribed = sub;
            unsubscribed = unsub;
            shown =
                shown
                ∙ ap (λ l. printed json (shard_ids l))
                    (shard_list-ext _ _
                      (λ t lt'. rw (w.no_preferences, listens-new net.host_id t) (ground arith)));
          },
        )
