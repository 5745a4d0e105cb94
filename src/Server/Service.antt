-- ===== src/Server/Service.antt =====
-- rpcserver.go, lines 25 to 30, 336 to 355 and 523 to 557: the RPC server as a service, which runs
-- until it is stopped. gRPC hands a request to the method of its name, and refuses it with an error
-- when the server is stopped.
use sharding_p2p_poc.Prelude.{Bool, true, false, if◌then◌else◌}
use sharding_p2p_poc.Outcome.{fail, ok, Error}
use sharding_p2p_poc.Exec.{Exec}
use sharding_p2p_poc.Messages.{Codecs}
use sharding_p2p_poc.Network.{Network}
use sharding_p2p_poc.State.{Node}
use sharding_p2p_poc.Discovery.{Discovery}
use sharding_p2p_poc.Requests.{Streams}
use sharding_p2p_poc.Bootstrap.{Addresses}
use sharding_p2p_poc.Rpc.{PocClient}
use sharding_p2p_poc.Server.Preferences
use sharding_p2p_poc.Server.Collations
use sharding_p2p_poc.Server.Hosts
use sharding_p2p_poc.Server.Hosts.{Keys}

module _ (net : Network) where
  pub record Service : Type 0 where
    pub node : Node net
    pub running : Bool
    -- A goroutine of StopServer waits for a second to stop the server.
    pub stopping : Bool

  -- A handler works on the node.
  unfoldable pub served : Error → {A : Type 0} → Exec (Node net) A → Exec Service A
  served unavailable handler s =
      if s.running
      then ((handler s.node).0, record s { node = (handler s.node).1 })
      else (fail unavailable, s)

  unfoldable pub stop_server : Error → Exec Service (Unit {0})
  stop_server unavailable s =
      if s.running then (ok tt, record s { stopping = true }) else (fail unavailable, s)

  -- The second is over, when a goroutine waits.
  unfoldable pub second_over : Service → Service
  second_over s = if s.stopping then record s { running = false; stopping = false } else s

  -- A signal to the process
  unfoldable pub interrupted : Service → Service
  interrupted s = record s { running = false }

  module _ (d : Discovery (Node net)) (codecs : Codecs) (keys : Keys) (addresses : Addresses)
      (streams : Streams net.World) (unavailable : Error) where
    -- The methods of the server, called through gRPC
    unfoldable pub poc_server : PocClient Service
    poc_server = record {
      identify = served unavailable (Hosts.identify net codecs);
      add_peer = λ ip port seed. served unavailable (Hosts.add_peer net keys ip port seed);
      discover_shard =
          λ topics. served unavailable (Preferences.discover_shard net d codecs topics);
      subscribe_shard = λ num ids. served unavailable (Preferences.subscribe_shard net d num ids);
      unsubscribe_shard = λ ids. served unavailable (Preferences.unsubscribe_shard net d ids);
      get_subscribed_shard = served unavailable (Preferences.get_subscribed_shard net d);
      broadcast_collation = λ id number size period.
          served unavailable (Collations.broadcast_collations net codecs id number size);
      send_collation =
          λ collation. served unavailable (Collations.send_collation net codecs collation);
      stop_server = stop_server unavailable;
      send = λ peer_id topic msg_type body.
          served unavailable (Collations.send net codecs streams peer_id topic msg_type body);
      list_peer = served unavailable (Hosts.list_peer net codecs);
      list_topic_peer = λ topics. served unavailable (Hosts.list_topic_peer net codecs topics);
      remove_peer = λ text. served unavailable (Hosts.remove_peer net codecs text);
      bootstrap = λ flag text. served unavailable (Hosts.bootstrap net addresses flag text);
    }
