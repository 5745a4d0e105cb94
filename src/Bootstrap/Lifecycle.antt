-- ===== src/Bootstrap/Lifecycle.antt =====
-- node.go, lines 56 to 90: starting and stopping, the flag and the cancel function.
use sharding_p2p_poc.Prelude.{
  Bool, true, false, ◌≡◌, ◌≢◌, refl, arith, List, [], ◌∷◌, Option, none, some, inl, inr, Bool-cases,
  length,
}
use sharding_p2p_poc.Outcome.{Outcome, ok, returns, fails, panics, ending}
use sharding_p2p_poc.Exec.{attempt, pure}
use sharding_p2p_poc.Network.{Network, PeerInfo}
use sharding_p2p_poc.State.{Node, OnlyWorld, external, effect}
use sharding_p2p_poc.Manager.Connect.Frame.{
  Quiet, Quiet-bind, Quiet-attempt, Quiet-lift, Quiet-pure, quiet_rules,
}
use sharding_p2p_poc.Bootstrap.{
  dial_all, bootstrap_connect, start_bootstrapping, stop_bootstrapping, is_bootstrapping,
  judge_errors, with_error,
}

module _ (net : Network) where
  open net use {World, call_cancel, dht_bootstrap, cancel_func, connect, add_addrs}

  abbrev pub has_cancel : Option net.CancelFunc → Bool
  has_cancel none = false
  has_cancel (some c) = true

  -- The node bootstraps exactly when it holds a cancel function.
  abbrev pub IsCancellable : Node net → Type 0
  IsCancellable n = n.do_bootstrapping ≡ has_cancel n.cancel_bootstrapping

  dial_all-Quiet : (pinfos : List PeerInfo) → Quiet net (dial_all net pinfos)
  unfolding dial_all
  dial_all-Quiet [] = search quiet_rules
  dial_all-Quiet (p ∷ pinfos) =
      Quiet-bind net (effect net (add_addrs p.id p.addrs)) _ (record { at = λ n. refl })
        (λ _. Quiet-bind net (attempt (external net (connect p))) _ (search quiet_rules) (λ failure.
          Quiet-bind net (dial_all net pinfos) (λ errs. pure (with_error net failure errs))
            (dial_all-Quiet pinfos) (λ errs. Quiet-pure net (with_error net failure errs))))

  bootstrap_connect-Quiet : (pinfos : List PeerInfo) → Quiet net (bootstrap_connect net pinfos)
  unfolding bootstrap_connect
  bootstrap_connect-Quiet [] = record { at = λ n. refl }
  bootstrap_connect-Quiet (p ∷ pinfos) =
      Quiet-bind net (dial_all net (p ∷ pinfos)) _ (dial_all-Quiet (p ∷ pinfos))
        (λ errs. Quiet-lift net (judge_errors net (length (p ∷ pinfos)) errs))

  -- The state after the initial connections.
  abbrev pub connected : List PeerInfo → Node net → Node net
  connected peers n = (attempt (bootstrap_connect net peers) n).1

  pub connected_lem : (peers : List PeerInfo) (n : Node net) → OnlyWorld net n (connected peers n)
  connected_lem peers n =
      (Quiet-attempt net (bootstrap_connect net peers) (bootstrap_connect-Quiet peers)).at n

  -- What `StartBootstrapping` promises of a node that does not bootstrap yet, for a result `r`.
  pub record Starts (peers : List PeerInfo) (n : Node net) (r : Outcome (Unit {0}) × Node net)
      : Type 0 where
    -- If it succeeds, then the node bootstraps, and stopping calls the cancel function that it made.
    pub started :
        r.0 ≡ ok tt
        → (is_bootstrapping net r.1 ≡ (ok true, r.1))
          × (stop_bootstrapping net r.1 ≡ (
            ok tt,
            record n {
              world = call_cancel (cancel_func (connected peers n).world) r.1.world;
              do_bootstrapping = false;
              cancel_bootstrapping = none;
            },
          ))
    -- If not, then only the world has changed.
    pub refused : r.0 ≢ ok tt → OnlyWorld net n r.1

  -- If the node does not bootstrap, then after a successful StartBootstrapping it does, and
  -- StopBootstrapping then returns without an error, calls the cancel function that was made after
  -- the initial connections, and leaves nothing to cancel; after an unsuccessful
  -- StartBootstrapping only the world has changed.
  pub start_bootstrapping-Starts :
      (peers : List PeerInfo) (n : Node net)
      → n.do_bootstrapping ≡ false
      → Starts peers n (start_bootstrapping net peers n)
  unfolding start_bootstrapping is_bootstrapping stop_bootstrapping
  start_bootstrapping-Starts peers n off =
      elim (ending (attempt (bootstrap_connect net peers) n).0) [
        | returns u e ↦ elim (ending (dht_bootstrap (connected peers n).world).0) [
          | returns v d ↦ record {
            started = λ p. ground (arith, off, e, d, connected_lem peers n);
            refused = λ p. ground (arith, off, e, d, connected_lem peers n);
          }
          | fails err d ↦ record {
            started = λ p. ground (arith, off, e, d, connected_lem peers n);
            refused = λ p. ground (arith, off, e, d, connected_lem peers n);
          }
          | panics d ↦ record {
            started = λ p. ground (arith, off, e, d, connected_lem peers n);
            refused = λ p. ground (arith, off, e, d, connected_lem peers n);
          }
        ]
        | fails err e ↦ record {
          started = λ p. ground (arith, off, e, connected_lem peers n);
          refused = λ p. ground (arith, off, e, connected_lem peers n);
        }
        | panics e ↦ record {
          started = λ p. ground (arith, off, e, connected_lem peers n);
          refused = λ p. ground (arith, off, e, connected_lem peers n);
        }
      ]

  -- If the node bootstraps exactly when it holds a cancel function, then this is so after
  -- StartBootstrapping and after StopBootstrapping, whatever they return, and StopBootstrapping
  -- returns without an error.
  pub bootstrapping-IsCancellable :
      (peers : List PeerInfo) (n : Node net)
      → IsCancellable n
      → IsCancellable (start_bootstrapping net peers n).1
        × IsCancellable (stop_bootstrapping net n).1
        × ((stop_bootstrapping net n).0 ≡ ok tt)
  unfolding start_bootstrapping stop_bootstrapping
  bootstrapping-IsCancellable peers n h = (
    elim (Bool-cases n.do_bootstrapping) [
      | inl on ↦ ground (arith, on)
      | inr off ↦ elim (ending (attempt (bootstrap_connect net peers) n).0) [
        | returns u e ↦ elim (ending (dht_bootstrap (connected peers n).world).0) [
          | returns v d ↦ ground (arith, off, e, d)
          | fails err d ↦ ground (arith, off, h, e, d, connected_lem peers n)
          | panics d ↦ ground (arith, off, h, e, d, connected_lem peers n)
        ]
        | fails err e ↦ ground (arith, off, h, e, connected_lem peers n)
        | panics e ↦ ground (arith, off, h, e, connected_lem peers n)
      ]
    ],
    ground arith,
    ground arith,
  )
