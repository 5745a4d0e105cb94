-- ===== src/Bootstrap.antt =====
-- bootstrap.go, and lines 46 to 90 of node.go: the initial connections and the bootstrapping of the
-- DHT. The goroutines of `bootstrapConnect` are run in the order in which they are started; a
-- multiaddress and its parser are parameters.
pub mod Lifecycle
pub mod Dials
use sharding_p2p_poc.Prelude.{
  ℕ, Bytes, bytes_eq, Bool, true, false, not, List, [], ◌∷◌, ◌++◌, Option, none, some, contains,
  length, nat_beq, if◌then◌else◌,
}
use sharding_p2p_poc.Outcome
use sharding_p2p_poc.Outcome.{Outcome, ok, fail, panic, Error, message, wrapped}
use sharding_p2p_poc.Exec.{Exec, pure, raise, lift, gets, attempt, ◌>>=◌, ◌>>◌}
use sharding_p2p_poc.Network.{Network, PeerInfo}
use sharding_p2p_poc.State.{Node, external, effect}

-- ma.StringCast, which panics on a text that is no address, and pstore.InfoFromP2pAddr
pub record Addresses : Type 1 where
  pub Multiaddr : Type 0
  pub string_cast : Bytes → Option Multiaddr
  pub info_from_p2p_addr : Multiaddr → Outcome PeerInfo

module _ (addresses : Addresses) where
  open addresses use {string_cast, info_from_p2p_addr}

  abbrev cast_address : Bytes → Outcome addresses.Multiaddr
  cast_address peer = elim (string_cast peer) [ none ↦ panic | some maddr ↦ ok maddr ]

  unfoldable pub convert_peers : List Bytes → Outcome (List PeerInfo)
  convert_peers [] = ok []
  convert_peers (peer ∷ peers) = Outcome.◌>>=◌ (cast_address peer) λ maddr.
      Outcome.◌>>=◌ (info_from_p2p_addr maddr)
        λ p. Outcome.◌>>=◌ (convert_peers peers) λ pinfos. ok (p ∷ pinfos)

module _ (net : Network) where
  open net use {World, add_addrs, connect, peerstore_peers, dht_bootstrap, cancel_func, call_cancel}

  abbrev pub with_error : Option Error → List Error → List Error
  with_error none errs = errs
  with_error (some e) errs = e ∷ errs

  -- The goroutines; the result is what the channel of errors holds.
  unfoldable pub dial_all : List PeerInfo → Exec (Node net) (List Error)
  dial_all [] = pure []
  dial_all (p ∷ peers) = do
    effect net (add_addrs p.id p.addrs)
    failure ← attempt (external net (connect p))
    errs ← dial_all peers
    pure (with_error failure errs)

  -- The loop over the channel: the last error, which the message names.
  abbrev pub last_error : Error → List Error → Error
  last_error e [] = e
  last_error e (d ∷ errs) = last_error d errs

  -- The test after the loop, with the number of peers.
  abbrev pub judge_errors : ℕ → List Error → Outcome (Unit {0})
  judge_errors k [] = ok tt
  judge_errors k (e ∷ errs) =
      if nat_beq (length (e ∷ errs)) k
      then fail (wrapped "Failed to bootstrap. " (last_error e errs))
      else ok tt

  unfoldable pub bootstrap_connect : List PeerInfo → Exec (Node net) (Unit {0})
  bootstrap_connect [] = raise (message "not enough bootstrap peers")
  bootstrap_connect (p ∷ peers) = do
    errs ← dial_all (p ∷ peers)
    lift (judge_errors (length (p ∷ peers)) errs)

  unfoldable pub is_peer : Bytes → Exec (Node net) Bool
  unfolding contains
  is_peer peer_id = gets (λ n. contains (peerstore_peers n.world) peer_id)

  -- The error of `bootstrapConnect` is dropped.
  unfoldable pub start_bootstrapping : List PeerInfo → Exec (Node net) (Unit {0})
  start_bootstrapping bootstrap_peers = do
    doing ← gets (λ n. n.do_bootstrapping)
    if doing then pure tt else do
      _ ← attempt (bootstrap_connect bootstrap_peers)
      cancel ← gets (λ n. cancel_func n.world)
      external net dht_bootstrap
      λ n. (ok tt, record n { do_bootstrapping = true; cancel_bootstrapping = some cancel })

  unfoldable pub is_bootstrapping : Exec (Node net) Bool
  is_bootstrapping = gets (λ n. n.do_bootstrapping)

  -- A call of a nil function panics.
  abbrev cancelled : Node net → Option net.CancelFunc → Outcome (Unit {0}) × Node net
  cancelled n none = (panic, n)
  cancelled n (some cancel) = (
    ok tt,
    record n {
      world = call_cancel cancel n.world;
      do_bootstrapping = false;
      cancel_bootstrapping = none;
    },
  )

  unfoldable pub stop_bootstrapping : Exec (Node net) (Unit {0})
  stop_bootstrapping n =
      if not n.do_bootstrapping then (ok tt, n) else cancelled n n.cancel_bootstrapping
