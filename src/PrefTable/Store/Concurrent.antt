-- ===== src/PrefTable/Store/Concurrent.antt =====
-- Any number of concurrent calls of `AddPeerListeningShard`: when they have returned.
use sharding_p2p_poc.Prelude.{
  ℕ, zero, suc, ◌-◌, ◌<◌, pos, Bytes, bytes_eq, bytes_beq_iff, true, ◌&&◌, ◌||◌, ◌==◌, nat_beq,
  nat_beq_iff, ◌≡◌, refl, sym, ap, subst, ◌∙◌, arith, some, Bool-cases, inl, inr,
}
use sharding_p2p_poc.Prelude.Assoc.{lookup}
use sharding_p2p_poc.Outcome.{ok}
use sharding_p2p_poc.Shards.View.{has_shard, set_shard-Updates}
use sharding_p2p_poc.PrefTable.Store.{
  Store, cell, Adding, reading, setting, writing, storing, added, add_step,
}
use sharding_p2p_poc.PrefTable.Store.Loads.{set_shard-loads}
use sharding_p2p_poc.PrefTable.Store.Recorded.{System, Ready, Reach, Stands, At, called, picked}
use sharding_p2p_poc.PrefTable.Store.Steps.{Reach-Stands}

nat_beq_refl : (i : ℕ) → nat_beq i i ≡ true
nat_beq_refl i = (nat_beq_iff i i).1 refl

some_same : {a b : ℕ} → some a ≡ some b → a ≡ b
some_same e = cc

-- The steps to come of one `AddPeerListeningShard`
abbrev pub steps_left : Adding → ℕ
steps_left reading = 4
steps_left (setting p) = 3
steps_left (writing p k b) = 2
steps_left (storing p) = 1
steps_left (added r) = 0

module _ (count : ℕ) (peer : ℕ → Bytes) (shard : ℕ → ℕ) where
  step-steps_left :
      (st : Store) (ready : Ready count peer shard st) (s : System) (i : ℕ) (a : Adding)
      → i < count
      → Stands count peer shard st ready s
      → At count peer shard st ready s.store (peer i) (shard i) a
      → steps_left (add_step (peer i) (pos (shard i)) a s.store).0 ≡ steps_left a - 1
  unfolding add_step
  step-steps_left st ready s i reading h w new =
      let (p, l) = ready.recorded i h in rw (w.same_map (peer i), l) refl
  step-steps_left st ready s i (setting p) h w new =
      let u =
        set_shard-Updates (cell s.store.cells p) (shard i) (w.forms (peer i) p new)
          (ready.in_range i h) in
      let (r, e, same) =
        set_shard-loads (cell s.store.cells p) u.result (pos (shard i)) u.returned in
      rw e refl
  step-steps_left st ready s i (writing p k b) h w new = refl
  step-steps_left st ready s i (storing p) h w new = refl
  step-steps_left st ready s i (added r) h w new = refl

  -- Whatever the other calls do, each call of AddPeerListeningShard returns after its fourth step.
  pub picked-steps_left :
      (st : Store) (s : System) (i : ℕ)
      → Ready count peer shard st
      → Reach count peer shard st s
      → i < count
      → steps_left ((picked count peer shard i s).place i) ≡ steps_left (s.place i) - 1
  picked-steps_left st s i ready r h =
      let w = Reach-Stands count peer shard st ready s r in
      rw (nat_beq_refl i) (step-steps_left st ready s i (s.place i) h w (w.at i h))

  -- All calls returned without an error, and each set has the shards that it had and those that
  -- the calls have entered for its peer.
  pub record Entered (st : Store) (s : System) : Type 0 where
    pub returned : (i : ℕ) → i < count → s.place i ≡ added (ok tt)
    pub same_map : (q : Bytes) → lookup q s.store.shard_pref_map ≡ lookup q st.shard_pref_map
    pub bits :
        (q : Bytes) (p t : ℕ)
        → lookup q st.shard_pref_map ≡ some p
        → has_shard (cell s.store.cells p) t
          ≡ (called count peer shard count q t || has_shard (cell st.cells p) t)

  returned-At :
      (st : Store) (ready : Ready count peer shard st) (now : Store) (q : Bytes) (s : ℕ)
      (a : Adding)
      → At count peer shard st ready now q s a
      → steps_left a ≡ 0
      → (a ≡ added (ok tt))
        × (p : ℕ) × (lookup q st.shard_pref_map ≡ some p)
        × (has_shard (cell now.cells p) s ≡ true)
  returned-At st ready now q s reading h e = absurd (omega (arith, e))
  returned-At st ready now q s (setting p) h e = absurd (omega (arith, e))
  returned-At st ready now q s (writing p k b) h e = absurd (omega (arith, e))
  returned-At st ready now q s (storing p) h e = absurd (omega (arith, e))
  returned-At st ready now q s (added r) (o, p, l, b) e = (ap added o, p, l, b)

  -- What a call has entered is there.
  all_called :
      (now : Store) (k p t : ℕ) (q : Bytes)
      → ((i : ℕ) → i < k → peer i ≡ q → has_shard (cell now.cells p) (shard i) ≡ true)
      → called count peer shard k q t ≡ true
      → has_shard (cell now.cells p) t ≡ true
  all_called now zero p t q f e = cc
  all_called now (suc k) p t q f e = elim (Bool-cases (peer k == q && nat_beq (shard k) t)) [
    | inl on ↦
        subst (λ b. has_shard (cell now.cells p) b ≡ true)
          (ground (arith, on, nat_beq_iff (shard k) t))
          (f k (omega arith) (ground (arith, on, bytes_beq_iff (peer k) q)))
    | inr off ↦ all_called now k p t q (λ i h. f i (omega arith)) (ground (arith, off, e))
  ]

  -- Any number of concurrent calls of AddPeerListeningShard, for peers that the map holds, without
  -- a set that two peers share, for shards below 100, and for shards of different bytes of the set
  -- where two calls are for one peer, take their steps, which read and write the map and a byte,
  -- in any order: when all have returned, none has failed, no call's shard is lost, and the set of
  -- each peer has the shards that it had before and those that the calls have entered for it, and
  -- no others.
  pub concurrent_adds-Entered :
      (st : Store) (s : System)
      → Ready count peer shard st
      → Reach count peer shard st s
      → ((i : ℕ) → i < count → steps_left (s.place i) ≡ 0)
      → Entered st s
  concurrent_adds-Entered st s ready r done =
      let w = Reach-Stands count peer shard st ready s r in
      let end = λ (i : ℕ) (h : i < count).
        returned-At st ready s.store (peer i) (shard i) (s.place i) (w.at i h) (done i h) in
      record {
        returned = λ i h. (end i h).0;
        same_map = w.same_map;
        bits = λ q p t l. elim (Bool-cases (has_shard (cell s.store.cells p) t)) [
          | inl on ↦ on ∙ sym (w.only q p t l on)
          | inr off ↦
              elim (Bool-cases
                (called count peer shard count q t || has_shard (cell st.cells p) t)) [
                  | inr neither ↦ off ∙ sym neither
                  | inl some_reason ↦ elim (Bool-cases (called count peer shard count q t)) [
                    | inr not_called ↦
                        absurd (
                          ground (arith, off, w.kept p t (ground (arith, not_called, some_reason))))
                    | inl is_called ↦ absurd (
                        ground (
                          arith,
                          off,
                          all_called s.store count p t q
                              (λ i h same.
                                let (_, k, at, bit) = end i h in
                                subst (λ x. has_shard (cell s.store.cells x) (shard i) ≡ true)
                                  (some_same
                                    (sym at ∙ ap (λ x. lookup x st.shard_pref_map) same ∙ l))
                                  bit)
                              is_called,
                        ))
                  ]
                ]
        ];
      }
