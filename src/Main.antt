-- ===== src/Main.antt =====
-- main.go: the flags, the choice of the program that runs, and the start of a server; with NewNode of
-- node.go, NewRequestProtocol of requests.go, NewRpcEventNotifier of eventrpc.go and runRPCServer of
-- rpcserver.go. Logging and spans are left out; the tracer is set up, and not closed at the end.
pub mod Startup
pub mod Notifiers
pub mod Sessions
pub mod Running
use sharding_p2p_poc.Prelude.{
  ℕ, ℤ, pos, Bytes, bytes_eq, ◌==◌, codes, Bool, true, false, not, ◌&&◌, List, [], ◌∷◌, ◌++◌,
  Option, none, some, get_elem?, if◌then◌else◌,
}
use sharding_p2p_poc.Outcome
use sharding_p2p_poc.Outcome.{Outcome, ok, fail, panic}
use sharding_p2p_poc.Exec.{Exec, pure, attempt, ◌>>=◌, ◌>>◌}
use sharding_p2p_poc.Text.{format_int, split}
use sharding_p2p_poc.Messages.{Codecs}
use sharding_p2p_poc.Network.{Network, PeerInfo}
use sharding_p2p_poc.State.{Node, initial_node, external, effect}
use sharding_p2p_poc.Notifier.{
  EventNotifier, ReceiveRequest, ReceiveResponse, mock_event_notifier, rpc_event_notifier,
}
use sharding_p2p_poc.Requests.{shard_peer_request_protocol, general_request_protocol}
use sharding_p2p_poc.Manager.{new_shard_manager}
use sharding_p2p_poc.Bootstrap.{Addresses, convert_peers, start_bootstrapping}
use sharding_p2p_poc.Server.Hosts.{Keys, make_key, tcp_address}
use sharding_p2p_poc.Server.Service.{Service}
use sharding_p2p_poc.Cli.{or_fatal}
use sharding_p2p_poc.Cli.Calls.{or_end}

abbrev pub default_ip : Bytes
default_ip = codes "127.0.0.1"

abbrev pub default_listen_port : ℤ
default_listen_port = pos 10000

abbrev pub default_rpc_port : ℤ
default_rpc_port = pos 13000

-- The flags, and the arguments behind them
pub record Flags : Type 0 where
  pub seed : ℤ
  pub ip : Bytes
  pub port : ℤ
  pub rpc_ip : Bytes
  pub rpc_port : ℤ
  pub notifier_port : ℤ
  pub do_bootstrapping : Bool
  pub bootnodes : Bytes
  pub is_client : Bool
  pub args : List Bytes

abbrev pub default_flags : List Bytes → Flags
default_flags args = record {
  seed = pos 0;
  ip = default_ip;
  port = default_listen_port;
  rpc_ip = default_ip;
  rpc_port = default_rpc_port;
  notifier_port = pos 0;
  do_bootstrapping = false;
  bootnodes = [];
  is_client = false;
  args = args;
}

-- fmt.Sprintf("%v:%v", ip, port)
abbrev pub address : Bytes → ℤ → Bytes
address ip port = ip ++ b':' ∷ format_int port

-- What `main` does: it prints the version, or calls runClient or runServer.
pub data Program : Type 0 where
  version : (line : Bytes) → Program
  run_client : (rpc_addr : Bytes) (args : List Bytes) → Program
  run_server : (flags : Flags) (rpc_addr notifier_addr : Bytes) → Program

abbrev pub asks_version : List Bytes → Bool
asks_version [] = false
asks_version (cmd ∷ args) = cmd == codes "version"

unfoldable pub main : (git_commit : Bytes) → Flags → Program
main git_commit f =
    if asks_version f.args
    then version (codes "0.0.0 - " ++ git_commit)
    else if f.is_client
    then run_client (address f.rpc_ip f.rpc_port) f.args
    else run_server f (address f.rpc_ip f.rpc_port) (address f.rpc_ip f.notifier_port)

-- p.onShardPeerRequest, p.onGeneralRequest
pub data StreamHandler : Type 0 where
  on_shard_peer_request on_general_request : StreamHandler

-- What the start uses of the libraries
pub record Libraries (net : Network) : Type 1 where
  pub keys : Keys
  pub addresses : Addresses
  -- libp2p.New, kaddht.NewDHT and rhost.Wrap: the first world of a host
  pub new_host : keys.PrivKey → Bytes → Outcome net.World
  pub new_gossip_sub : net.World → Outcome (Unit {0}) × net.World
  pub set_stream_handler : Bytes → StreamHandler → net.World → net.World
  -- grpc.Dial and the client's method
  pub dial_notifier :
      Bytes → Outcome (ReceiveRequest → net.World → Outcome ReceiveResponse × net.World)
  -- net.Listen
  pub listen : Bytes → Outcome (Unit {0})
  -- os.Getenv, and the configuration's New for a name and the agent's address, with SetGlobalTracer
  pub getenv : Bytes → Bytes
  pub new_tracer : Bytes → Bytes → Outcome (Unit {0})

module _ (net : Network) (libs : Libraries net) where
  open libs use {
    keys, addresses, new_host, new_gossip_sub, set_stream_handler, dial_notifier, listen, getenv,
    new_tracer,
  }

  unfoldable pub new_request_protocol : Exec (Node net) (Unit {0})
  new_request_protocol = do
    effect net (set_stream_handler shard_peer_request_protocol on_shard_peer_request)
    effect net (set_stream_handler general_request_protocol on_general_request)

  -- On the state that a node starts from
  unfoldable pub new_node : Exec (Node net) (Unit {0})
  new_node = do or_end (external net new_gossip_sub); new_request_protocol; new_shard_manager net

  -- The error of StartBootstrapping is dropped.
  abbrev pub bootstrapped : Bool → List PeerInfo → Exec (Node net) (Unit {0})
  bootstrapped false peers = pure tt
  bootstrapped true peers = attempt (start_bootstrapping net peers) >>= λ _. pure tt

  abbrev pub made : Outcome (Unit {0}) × Node net → Outcome (Node net)
  made r = Outcome.◌>>=◌ r.0 λ u. ok r.1

  unfoldable pub make_node : Bytes → ℤ → ℤ → Bool → List PeerInfo → Outcome (Node net)
  make_node ip port seed doing peers = Outcome.◌>>=◌ (make_key keys seed) λ key.
      Outcome.◌>>=◌ (new_host key.0 (tcp_address ip port))
        λ world. made ((new_node >> bootstrapped doing peers) (initial_node net world))

  -- The text without an address is no list of one empty address here; an error is logged only.
  unfoldable pub bootnodes_of : Bytes → Outcome (List PeerInfo)
  bootnodes_of [] = ok []
  bootnodes_of (c ∷ text) = Outcome.ignoring [] (convert_peers addresses (split (c ∷ text) b','))

  -- Empty unless the environment has both parts of the address
  unfoldable pub local_agent_host_port : Bytes
  local_agent_host_port =
      let host = getenv (codes "JAEGER_AGENT_HOST") in
      let port = getenv (codes "JAEGER_AGENT_PORT") in
      if not (host == []) && not (port == []) then host ++ b':' ∷ port else []

  unfoldable pub tracer_name : Bytes → Bytes
  tracer_name rpc_addr =
      let name = getenv (codes "NODE_NAME") in
      if not (name == []) then name ++ codes "'s RPC server" else codes "RPC Server@" ++ rpc_addr

  -- Without a tracer the server goes on.
  unfoldable pub set_up_tracer : Bytes → Outcome (Unit {0})
  unfolding local_agent_host_port tracer_name
  set_up_tracer rpc_addr =
      Outcome.ignoring tt (new_tracer (tracer_name rpc_addr) local_agent_host_port)

  unfoldable pub run_rpc_server : Node net → Bytes → Outcome (Service net)
  run_rpc_server node addr =
      Outcome.◌>>=◌ (or_fatal (listen addr))
        λ u. ok (record { node = node; running = true; stopping = false })

  module _ (codecs : Codecs) where
    unfoldable pub new_rpc_event_notifier : Bytes → Outcome (EventNotifier (Node net))
    new_rpc_event_notifier rpc_addr =
        Outcome.◌>>=◌ (dial_notifier rpc_addr)
          λ client. ok (rpc_event_notifier net client codecs.pretty)

    -- By the part behind the first colon; an index out of range is a panic.
    abbrev pub notifier_of : Bytes → Option Bytes → Outcome (EventNotifier (Node net))
    notifier_of notifier_addr none = panic
    notifier_of notifier_addr (some part) =
        if part == codes "0"
        then ok mock_event_notifier
        else or_fatal (new_rpc_event_notifier notifier_addr)

    unfoldable pub choose_notifier : Bytes → Outcome (EventNotifier (Node net))
    choose_notifier notifier_addr =
        notifier_of notifier_addr (get_elem? (split notifier_addr b':') 1)

    -- The notifier and the service that runs
    unfoldable pub start_server :
        Flags → Bytes → Bytes → Outcome (EventNotifier (Node net) × Service net)
    start_server f rpc_addr notifier_addr =
        Outcome.◌>>=◌ (choose_notifier notifier_addr) λ notifier.
          Outcome.◌>>=◌ (bootnodes_of f.bootnodes) λ bootnodes.
            Outcome.◌>>=◌ (or_fatal (make_node f.ip f.port f.seed f.do_bootstrapping bootnodes))
              λ node.
                Outcome.◌>>=◌ (set_up_tracer rpc_addr) λ u.
                  Outcome.◌>>=◌ (run_rpc_server node rpc_addr) λ service. ok (notifier, service)
