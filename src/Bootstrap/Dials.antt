-- ===== src/Bootstrap/Dials.antt =====
-- bootstrap.go, lines 28 to 74: when the initial connections fail.
use sharding_p2p_poc.Prelude.{
  ℕ, ◌≤◌, ◌<◌, Bool, true, false, not, ◌||◌, ◌≡◌, ◌≢◌, ◌↔◌, refl, arith, List, [], ◌∷◌, length,
  nat_beq,
}
use sharding_p2p_poc.Outcome.{Outcome, ok, fail, panic, returns, fails, panics, ending, Error}
use sharding_p2p_poc.Network.{Network, PeerInfo}
use sharding_p2p_poc.State.{Node}
use sharding_p2p_poc.Bootstrap.{dial_all, bootstrap_connect, judge_errors}

abbrev is_ok {ℓ} : {A : Type ℓ} → Outcome A → Bool
is_ok (ok a) = true
is_ok (fail e) = false
is_ok panic = false

module _ (net : Network) where
  open net use {World, add_addrs, connect}

  -- The dials, in their order: does one succeed?
  abbrev pub one_connects : List PeerInfo → World → Bool
  one_connects [] w = false
  one_connects (p ∷ peers) w =
      is_ok (connect p (add_addrs p.id p.addrs w)).0
      || one_connects peers (connect p (add_addrs p.id p.addrs w)).1

  -- The channel holds as many errors as there are peers exactly when no dial succeeds.
  pub record Errors (peers : List PeerInfo) (n : Node net) (r : Outcome (List Error) × Node net)
      : Type 0 where
    pub errs : List Error
    pub returned : r.0 ≡ ok errs
    bound : length errs ≤ length peers
    all_failed : nat_beq (length errs) (length peers) ≡ not (one_connects peers n.world)

  pub dial_all-Errors :
      ((p : PeerInfo) (w : World) → (connect p w).0 ≢ panic)
      → (peers : List PeerInfo) (n : Node net) → Errors peers n (dial_all net peers n)
  unfolding dial_all
  dial_all-Errors calm [] n = record {
    errs = [];
    returned = refl;
    bound = omega arith;
    all_failed = refl;
  }
  dial_all-Errors calm (p ∷ peers) n =
      let w = add_addrs p.id p.addrs n.world in
      let rest = dial_all-Errors calm peers (record n { world = (connect p w).1 }) in
      elim (ending (connect p w).0) [
        | returns u e ↦ record {
          errs = rest.errs;
          returned = ground (arith, e, rest.returned);
          bound = ground (arith, rest.bound);
          all_failed = ground (arith, e, rest.bound);
        }
        | fails err e ↦ record {
          errs = err ∷ rest.errs;
          returned = ground (arith, e, rest.returned);
          bound = ground (arith, rest.bound);
          all_failed = ground (arith, e, rest.all_failed);
        }
        | panics e ↦ absurd (calm p w e)
      ]

  judge_errors_iff :
      (k : ℕ) (errs : List Error)
      → 0 < k
      → (judge_errors net k errs ≡ ok tt) ↔ (nat_beq (length errs) k ≡ false)
  judge_errors_iff k [] h = ground arith
  judge_errors_iff k (e ∷ errs) h = ground arith

  -- If no dial panics, then bootstrapConnect returns without an error exactly when one of the
  -- dials, made in the order of the peers, succeeds; so it does not when there is no peer.
  pub bootstrap_connect_iff :
      ((p : PeerInfo) (w : World) → (connect p w).0 ≢ panic)
      → (peers : List PeerInfo) (n : Node net)
      → ((bootstrap_connect net peers n).0 ≡ ok tt) ↔ (one_connects peers n.world ≡ true)
  unfolding bootstrap_connect
  bootstrap_connect_iff calm [] n = ground arith
  bootstrap_connect_iff calm (p ∷ peers) n =
      let r = dial_all-Errors calm (p ∷ peers) n in
      rw r.returned
        (ground (arith, r.all_failed, judge_errors_iff (length (p ∷ peers)) r.errs (omega arith)))
