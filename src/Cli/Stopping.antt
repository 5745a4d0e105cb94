-- ===== src/Cli/Stopping.antt =====
-- rpcserver.go, lines 336 to 355, and cli.go, lines 330 to 344: the command stop.
use sharding_p2p_poc.Prelude.{
  Bytes, bytes_beq, codes, true, false, ◌≡◌, ◌≢◌, refl, arith, List, [], ◌∷◌, Option, none,
}
use sharding_p2p_poc.Outcome.{ok, panic, Error, returns, fails, panics, ending}
use sharding_p2p_poc.Messages.{Codecs}
use sharding_p2p_poc.Network.{Network}
use sharding_p2p_poc.State.{Node}
use sharding_p2p_poc.Discovery.{Discovery}
use sharding_p2p_poc.Requests.{Streams}
use sharding_p2p_poc.Bootstrap.{Addresses}
use sharding_p2p_poc.Rpc.{Dial}
use sharding_p2p_poc.Server.Hosts.{Keys}
use sharding_p2p_poc.Server.Service.{Service, served, stop_server, second_over, poc_server}
use sharding_p2p_poc.Cli
use sharding_p2p_poc.Cli.{Request, run_client}
use sharding_p2p_poc.Cli.Calls.{
  Json, call_rpc, client, call_identify, call_rpc_add_peer, call_rpc_discover,
  call_rpc_subscribe_shard, call_rpc_unsubscribe_shard, call_rpc_get_subscribed_shard,
  call_rpc_broadcast_collation, call_rpc_stop_server, call_rpc_list_peer, call_rpc_list_topic_peer,
  call_rpc_list_shard_peer, call_rpc_remove_peer, call_rpc_bootstrap,
}
use sharding_p2p_poc.Cli.Sessions.{Dials}

module _ (net : Network) (d : Discovery (Node net)) (codecs : Codecs) (keys : Keys)
    (addresses : Addresses) (streams : Streams net.World) (unavailable : Error) (json : Json)
    (dial : Dial (Service net)) (rpc_addr : Bytes)
    (c : Dials net d codecs keys addresses streams unavailable json dial rpc_addr) where
  -- The state of a stopped server does not change, and a call ends the client.
  call_rpc-stopped :
      (request : Request) (s : Service net)
      → s.running ≡ false
      → call_rpc json dial rpc_addr codecs request s ≡ (panic, s)
  unfolding poc_server served stop_server call_identify call_rpc_add_peer call_rpc_discover
      call_rpc_subscribe_shard call_rpc_unsubscribe_shard call_rpc_get_subscribed_shard
      call_rpc_broadcast_collation call_rpc_stop_server call_rpc_list_peer call_rpc_list_topic_peer
      call_rpc_list_shard_peer call_rpc_remove_peer call_rpc_bootstrap
  call_rpc-stopped Cli.identify s off = rw (c.dials s, off)
  call_rpc-stopped (Cli.add_peer ip port seed) s off = rw (c.dials s, off)
  call_rpc-stopped (Cli.discover_shard shards) s off = rw (c.dials s, off)
  call_rpc-stopped (Cli.subscribe_shard num ids) s off = rw (c.dials s, off)
  call_rpc-stopped (Cli.unsubscribe_shard ids) s off = rw (c.dials s, off)
  call_rpc-stopped Cli.get_subscribed_shard s off = rw (c.dials s, off)
  call_rpc-stopped (Cli.broadcast_collation id number size period) s off = rw (c.dials s, off)
  call_rpc-stopped Cli.stop_server s off = rw (c.dials s, off)
  call_rpc-stopped Cli.list_peer s off = rw (c.dials s, off)
  call_rpc-stopped (Cli.list_topic_peer topics) s off = rw (c.dials s, off)
  call_rpc-stopped (Cli.list_shard_peer shards) s off = rw (c.dials s, off)
  call_rpc-stopped (Cli.remove_peer peer_id) s off = rw (c.dials s, off)
  call_rpc-stopped (Cli.bootstrap flag text) s off = rw (c.dials s, off)

  -- No command succeeds.
  client-stopped :
      (args : List Bytes) (s : Service net) (line : Option Bytes)
      → s.running ≡ false
      → (client json dial rpc_addr codecs args s).0 ≢ ok line
  unfolding client
  client-stopped args s line off p = elim (ending (run_client codecs args)) [
    | fails e q ↦ ground (arith, p, q)
    | panics q ↦ ground (arith, p, q)
    | returns request q ↦ ground (arith, p, q, call_rpc-stopped request s off)
  ]

  -- The command stop prints nothing, and a second later no command of a client succeeds.
  pub stop-client :
      (s : Service net) (args : List Bytes) (line : Option Bytes)
      → s.running ≡ true
      → let stopped = client json dial rpc_addr codecs (codes "stop" ∷ []) s in
        (stopped.0 ≡ ok none)
        × ((client json dial rpc_addr codecs args (second_over net stopped.1)).0 ≢ ok line)
  unfolding client run_client call_rpc_stop_server poc_server stop_server second_over bytes_beq
  stop-client s args line on =
      rw (c.dials s, on)
        (
          refl,
          client-stopped args (record { node = s.node; running = false; stopping = false }) line
              refl,
        )
