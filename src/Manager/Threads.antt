-- ===== src/Manager/Threads.antt =====
-- shardmanager.go, lines 169 to 224, as the handlers of concurrent requests run it: a thread stands
-- between two calls that the method makes, and another thread can run there. The executions are those
-- in which no two calls overlap; PrefTable/Store has what AddPeerListeningShard does when they do.
pub mod Stands
pub mod Safety
pub mod Progress
pub mod Race
use sharding_p2p_poc.Prelude.{ℕ, zero, suc, ℤ, pos, Bool, true, false, Option, ◌≡◌, refl, arith}
use sharding_p2p_poc.Outcome.{Outcome, ok, fail, panic, Error, returns, fails, panics, ending}
use sharding_p2p_poc.Exec.{attempt}
use sharding_p2p_poc.Text.{format_int}
use sharding_p2p_poc.Network.{Network}
use sharding_p2p_poc.State.{Node}
use sharding_p2p_poc.Discovery.{Discovery}
use sharding_p2p_poc.Manager.{
  is_shard_listened, subscribe_collation, unsubscribe_collation, listen_shard, unlisten_shard,
}
use sharding_p2p_poc.Manager.Connect.{connect_shard_nodes}

-- The method that a thread runs, with its arguments
pub data Call : Type 0 where
  listening : (num_shard_peer_to_connect : ℤ) (shard : ℕ) → Call
  unlistening : (shard : ℕ) → Call

abbrev pub shard_of : Call → ℕ
shard_of (listening num s) = s
shard_of (unlistening s) = s

-- The next call that a thread makes, or how its method ended
pub data Place : Type 0 where
  checking advertising connecting subscribing unsubscribing : Place
  ended : Outcome (Unit {0}) → Place

abbrev pub ended_at {ℓ} : {A : Type ℓ} → Place → Outcome A → Place
ended_at next (ok a) = next
ended_at next (fail e) = ended (fail e)
ended_at next panic = ended panic

abbrev pub after_check : Place → Place → Outcome Bool → Place
after_check if_listened if_not (ok true) = if_listened
after_check if_listened if_not (ok false) = if_not
after_check if_listened if_not (fail e) = ended (fail e)
after_check if_listened if_not panic = ended panic

module _ (net : Network) (discovery : Discovery (Node net)) where
  -- One step of a thread: a whole call of the method, also where that call takes several locks, as
  -- Advertise does. An error of `connectShardNodes` is logged only.
  unfoldable pub move : Call → Place → Node net → Place × Node net
  move (listening num s) checking n =
      let r = is_shard_listened net (pos s) n in (after_check (ended (ok tt)) advertising r.0, r.1)
  move (listening num s) advertising n =
      let r = discovery.advertise (format_int (pos s)) n in (ended_at connecting r.0, r.1)
  move (listening num s) connecting n =
      let r = attempt (connect_shard_nodes net discovery num (pos s)) n in
      (ended_at subscribing r.0, r.1)
  move (listening num s) subscribing n =
      let r = subscribe_collation net (pos s) n in (ended r.0, r.1)
  move (listening num s) unsubscribing n = (unsubscribing, n)
  move (unlistening s) checking n =
      let r = is_shard_listened net (pos s) n in (after_check advertising (ended (ok tt)) r.0, r.1)
  move (unlistening s) advertising n =
      let r = discovery.advertise (format_int (pos s)) n in (ended_at unsubscribing r.0, r.1)
  move (unlistening s) connecting n = (connecting, n)
  move (unlistening s) subscribing n = (subscribing, n)
  move (unlistening s) unsubscribing n =
      let r = unsubscribe_collation net (pos s) n in (ended r.0, r.1)
  move c (ended r) n = (ended r, n)
