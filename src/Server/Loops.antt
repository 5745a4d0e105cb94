-- ===== src/Server/Loops.antt =====
-- rpcserver.go, lines 182 to 192 and 210 to 220: a loop over shards that goes on after an error.
use sharding_p2p_poc.Prelude.{ℤ, ◌≡◌, ◌≢◌, refl, arith, List, none, some}
use sharding_p2p_poc.Outcome.{Outcome, ok, fail, panic, returns, fails, panics, ending}
use sharding_p2p_poc.Exec.{Exec, continue, seen, pure, ◌>>=◌}
use sharding_p2p_poc.Server.Preferences.{succeeded}

module _ {S : Type 0} where
  -- A list was returned, and the state has a property.
  abbrev pub Done : (S → Type 0) → Outcome (List ℤ) × S → Type 0
  Done P r = ((ids : List ℤ) × (r.0 ≡ ok ids)) × P r.1

  -- The rest of a loop after a call that ended in `r` and `m`, for the shard `id`
  abbrev pub going_on :
      (List ℤ → Exec S (List ℤ)) → ℤ → List ℤ → Outcome (Unit {0}) → S → Outcome (List ℤ) × S
  going_on rest id ids r m =
      continue (seen r m).0 (λ failure. rest (succeeded failure id ids)) (seen r m).1

  pub going_on-Done :
      (P : S → Type 0) (rest : List ℤ → Exec S (List ℤ)) (id : ℤ) (ids : List ℤ)
      (r : Outcome (Unit {0})) (m : S)
      → ((ids' : List ℤ) → (rest ids' m).0 ≢ panic → Done P (rest ids' m))
      → (going_on rest id ids r m).0 ≢ panic
      → Done P (going_on rest id ids r m)
  going_on-Done P rest id ids (ok u) m rec p = rec (succeeded none id ids) p
  going_on-Done P rest id ids (fail e) m rec p = rec (succeeded (some e) id ids) p
  going_on-Done P rest id ids panic m rec p = absurd (p refl)

  -- The method drops the list.
  abbrev pub dropping : Exec S (List ℤ) → Exec S (Unit {0})
  dropping loop = loop >>= λ ids. pure tt

  pub dropped-Done :
      (P : S → Type 0) (loop : Exec S (List ℤ)) (s : S)
      → ((loop s).0 ≢ panic → Done P (loop s))
      → (dropping loop s).0 ≢ panic
      → ((dropping loop s).0 ≡ ok tt) × P (dropping loop s).1
  dropped-Done P loop s h p = elim (ending (loop s).0) [
    | panics e ↦ absurd (p (rw e))
    | returns done e ↦ rw e (refl, (h (λ q. ground (arith, e, q))).1)
    | fails err e ↦ absurd (ground (arith, e, (h (λ q. ground (arith, e, q))).0.1))
  ]
