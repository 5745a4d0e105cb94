-- ===== src/Fixtures/Clients.antt =====
-- The libraries of a server, and a client's connection to it.
use sharding_p2p_poc.Prelude.{refl, ℕ, Bytes, [], ◌∷◌, codes, Option, none, some}
use sharding_p2p_poc.Outcome.{ok, fail, Error, message}
use sharding_p2p_poc.Bootstrap.{Addresses}
use sharding_p2p_poc.Requests.{Streams}
use sharding_p2p_poc.Server.Hosts.{Keys}
use sharding_p2p_poc.Text.{listening_shard_topic}
use sharding_p2p_poc.Main.{Libraries, default_flags}
use sharding_p2p_poc.Main.Running.{LetsStart}
use sharding_p2p_poc.Discovery.{new_global_table}
use sharding_p2p_poc.Rpc.{Dial}
use sharding_p2p_poc.Server.Service.{Service, poc_server}
use sharding_p2p_poc.Cli.Calls.{Json}
use sharding_p2p_poc.Cli.Sessions.{Dials}
use sharding_p2p_poc.Fixtures.{network, codecs, alice, bob}

abbrev pub keys : Keys
keys = record {
  PrivKey = ℕ;
  generate_key = λ seed. ok 5;
  id_from_private_key = λ key. ok alice;
  new_multiaddr = λ text. ok text;
}

-- An address is its text, and no text names a peer.
-- The empty text is no multiaddress.
abbrev cast : Bytes → Option Bytes
cast [] = none
cast (c ∷ text) = some (c ∷ text)

abbrev pub addresses : Addresses
addresses = record {
  Multiaddr = Bytes;
  string_cast = cast;
  info_from_p2p_addr = λ addr. fail (message "no p2p address");
}

abbrev pub streams : Streams ℕ
streams = record {
  Stream = ℕ;
  new_stream = λ p protocol w. (ok w, w);
  encode = λ s bytes w. (ok tt, w);
  flush = λ s w. (ok tt, w);
  decode = λ s w. (ok [], w);
  full_close = λ s w. w;
  close = λ s w. w;
  remote_peer = λ s. bob;
}

abbrev pub libraries : Libraries network
libraries = record {
  keys = keys;
  addresses = addresses;
  new_host = λ key text. ok 0;
  new_gossip_sub = λ w. (ok tt, w);
  set_stream_handler = λ protocol handler w. w;
  dial_notifier = λ addr. fail (message "refused");
  listen = λ addr. ok tt;
  getenv = λ name. [];
  new_tracer = λ name agent. fail (message "no agent");
}

abbrev pub unavailable : Error
unavailable = message "unavailable"

abbrev pub json : Json
json value = ok (codes "json")

-- Every address is the server's.
abbrev pub dial : Dial (Service network)
dial addr s = (
  ok (poc_server network (new_global_table network) codecs keys addresses streams unavailable),
  s,
)

abbrev pub rpc_addr : Bytes
rpc_addr = codes "127.0.0.1:13000"

pub dial-Dials :
    Dials network
      (new_global_table network)
      codecs
      keys
      addresses
      streams
      unavailable
      json
      dial
      rpc_addr
dial-Dials = record { dials = λ s. refl }

pub libraries-LetsStart : LetsStart network libraries (default_flags []) rpc_addr
libraries-LetsStart = record {
  key = (5, refl);
  id = λ k. (alice, refl);
  host = λ k. (0, refl);
  gossip = λ w. refl;
  subscribes = λ w. (listening_shard_topic, refl);
  registers = λ topic v w p. cc;
  connects = λ p w q. cc;
  bootstraps = λ w p. cc;
  traces = λ name agent p. cc;
  listens = refl;
}
