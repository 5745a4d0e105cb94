-- ===== src/PrefTable/Store/Steps.antt =====
-- Concurrent calls of `AddPeerListeningShard`, for peers that the map holds: one step of a call.
use sharding_p2p_poc.Prelude.{
  ℕ, pos, Bytes, bytes_eq, bytes_beq_iff, true, ◌&&◌, ◌||◌, ◌==◌, nat_beq, nat_beq_iff, ◌≡◌, ◌≢◌,
  ◌<◌, ◌/◌, sym, refl, ap, subst, ◌∙◌, arith, some, length, length-set, set, Bool-cases, inl, inr,
  List,
}
use sharding_p2p_poc.Prelude.Assoc.{lookup, insert, lookup-insert}
use sharding_p2p_poc.Outcome.{ok}
use sharding_p2p_poc.Shards.{ListeningShards, new_listening_shards, set_shard}
use sharding_p2p_poc.Shards.View.{has_shard, set_shard-Updates}
use sharding_p2p_poc.PrefTable.Store.{
  Store, cell, Adding, reading, setting, writing, storing, added, add_step, loaded, with_byte,
}
use sharding_p2p_poc.PrefTable.Store.Loads.{
  set_shard-loaded, set_shard-loads, loaded-index, loaded-with_byte,
}
use sharding_p2p_poc.PrefTable.Store.Refinement.{get_or-set_self, get_or-set_ne}
use sharding_p2p_poc.PrefTable.Store.Recorded.{
  System, moved, Reach, start, pick, called, called_by, Ready, At, Stands, start-Stands, moved-At,
}

module _ (count : ℕ) (peer : ℕ → Bytes) (shard : ℕ → ℕ) where
  module _ (st : Store) (ready : Ready count peer shard st) where
    -- A call makes a step at the place `a`.
    abbrev stepped : System → ℕ → Adding → System
    stepped s i a =
        let r = add_step (peer i) (pos (shard i)) a s.store in
        record { store = r.1; place = moved s.place i r.0 }

    -- Nothing but the place of the call changes.
    idle-Stands :
        (s : System) (i : ℕ) (a : Adding)
        → Stands count peer shard st ready s
        → At count peer shard st ready s.store (peer i) (shard i) a
        → Stands count peer shard st ready (record { store = s.store; place = moved s.place i a })
    idle-Stands s i a w new = record {
      same_map = w.same_map;
      same_length = w.same_length;
      forms = w.forms;
      at =
          moved-At count peer shard st ready s.store s.store s.place i a (λ p t e. e)
            (λ j h ne p k b l e. e) w.at new;
      kept = w.kept;
      only = w.only;
    }

    -- The bits of the sets after one of them is written
    bits-set :
        (cells : List ListeningShards) (p k s t : ℕ) (ls : ListeningShards)
        → p < length cells
        → ((b : ℕ) → has_shard ls b ≡ (nat_beq s b || has_shard (cell cells p) b))
        → has_shard (cell (set cells p ls) k) t
          ≡ ((nat_beq p k && nat_beq s t) || has_shard (cell cells k) t)
    bits-set cells p k s t ls h b = elim (Bool-cases (nat_beq p k)) [
      | inl e ↦ rw (← (nat_beq_iff p k).0 e) (
          rw (get_or-set_self cells p ls new_listening_shards h, b t)
            (ground (arith, nat_beq_iff p p)))
      | inr e ↦
          rw (e, get_or-set_ne cells p k ls new_listening_shards (λ q. ground (arith, e, q))) refl
    ]

    -- What is written is the result of setShard.
    written-result :
        (ls l : ListeningShards) (t k b : ℕ)
        → set_shard ls (pos t) ≡ ok l
        → loaded ls (pos t) ≡ ok (k, b)
        → with_byte ls k b ≡ l
    written-result ls l t k b e q = ground (arith, e, q, set_shard-loaded ls (pos t))

    -- Another call reads what it would have read before the byte was written.
    still_reads :
        (cells : List ListeningShards) (i j p m k b c d : ℕ) (l : ListeningShards)
        → i < count
        → j < count
        → i ≢ j
        → p < length cells
        → lookup (peer i) st.shard_pref_map ≡ some p
        → lookup (peer j) st.shard_pref_map ≡ some m
        → with_byte (cell cells p) k b ≡ l
        → loaded (cell cells p) (pos (shard i)) ≡ ok (k, b)
        → loaded (cell cells m) (pos (shard j)) ≡ ok (c, d)
        → loaded (cell (set cells p l) m) (pos (shard j)) ≡ ok (c, d)
    still_reads cells i j p m k b c d l hi hj ne lt at at' found read e =
        elim (Bool-cases (nat_beq p m)) [
          | inr off ↦
              rw
                (get_or-set_ne cells p m l new_listening_shards
                  (λ q. ground (arith, off, q, nat_beq_iff p m)))
                e
          | inl on ↦
              let same : p ≡ m = (nat_beq_iff p m).0 on in
              let peers : peer i ≡ peer j =
                ready.is_store.apart (peer i) (peer j) p at (at' ∙ ap some (sym same)) in
              let apart : k ≢ shard j / 8 = λ q.
                ready.bytes_apart i j hi hj ne peers (
                  sym (loaded-index (cell cells p) (shard i) k b (ready.in_range i hi) read) ∙ q) in
              let here : loaded (cell cells p) (pos (shard j)) ≡ ok (c, d) =
                subst (λ x. loaded (cell cells x) (pos (shard j)) ≡ ok (c, d)) (sym same) e in
              subst (λ x. loaded (cell (set cells p l) x) (pos (shard j)) ≡ ok (c, d)) same
                (rw (get_or-set_self cells p l new_listening_shards lt) (
                  subst (λ x. loaded x (pos (shard j)) ≡ ok (c, d)) found
                    (loaded-with_byte (cell cells p) (shard j) k b (ready.in_range j hj) apart
                      ∙ here)))
        ]

    writing-Stands :
        (s : System) (i p k b : ℕ)
        → i < count
        → Stands count peer shard st ready s
        → At count peer shard st ready s.store (peer i) (shard i) (writing p k b)
        → Stands count peer shard st ready (stepped s i (writing p k b))
    unfolding add_step
    writing-Stands s i p k b h w (l, read) =
        let u =
          set_shard-Updates (cell s.store.cells p) (shard i) (w.forms (peer i) p l)
            (ready.in_range i h) in
        let found : with_byte (cell s.store.cells p) k b ≡ u.result =
          written-result (cell s.store.cells p) u.result (shard i) k b u.returned read in
        let lt : p < length s.store.cells =
          rw w.same_length (ready.is_store.in_range (peer i) p l) in
        let bits = λ (k : ℕ) (t : ℕ). bits-set s.store.cells p k (shard i) t u.result lt u.bits in
        rw found (record {
          same_map = w.same_map;
          same_length = length-set s.store.cells p u.result ∙ w.same_length;
          forms = λ q k e. elim (Bool-cases (nat_beq p k)) [
            | inl on ↦
                rw
                  (
                    ← (nat_beq_iff p k).0 on,
                    get_or-set_self s.store.cells p u.result new_listening_shards lt,
                  )
                  u.well_formed
            | inr off ↦
                rw
                  (get_or-set_ne s.store.cells p k u.result new_listening_shards
                    (λ q'. ground (arith, off, q')))
                  (w.forms q k e)
          ];
          at =
              moved-At count peer shard st ready s.store
                (record s.store { cells = set s.store.cells p u.result }) s.place i (storing p)
                (λ k t e. ground (arith, bits k t, e))
                (λ j h' ne m c d l' e.
                  still_reads s.store.cells i j p m k b c d u.result h h' ne lt l l' found read e)
                w.at
                (
                  l,
                  ground
                      (arith, bits p (shard i), nat_beq_iff p p, nat_beq_iff (shard i) (shard i)),
                );
          kept = λ k t e. ground (arith, bits k t, w.kept k t e);
          only = λ q k t e b. elim (Bool-cases (nat_beq p k && nat_beq (shard i) t)) [
            | inr off ↦ w.only q k t e (ground (arith, bits k t, off, b))
            | inl on ↦
                let same : peer i ≡ q =
                  ready.is_store.apart (peer i) q p l
                    (e ∙ ap some (ground (arith, on, nat_beq_iff p k))) in
                let hit : called count peer shard count q t ≡ true =
                  subst (λ r. called count peer shard count r t ≡ true) same
                    (subst (λ b'. called count peer shard count (peer i) b' ≡ true)
                      (ground (arith, on, nat_beq_iff (shard i) t))
                      (called_by count peer shard count i h)) in
                ground (arith, hit)
          ];
        })

    setting-Stands :
        (s : System) (i p : ℕ)
        → i < count
        → Stands count peer shard st ready s
        → lookup (peer i) st.shard_pref_map ≡ some p
        → Stands count peer shard st ready (stepped s i (setting p))
    unfolding add_step
    setting-Stands s i p h w l =
        let u =
          set_shard-Updates (cell s.store.cells p) (shard i) (w.forms (peer i) p l)
            (ready.in_range i h) in
        let (r, e, same) =
          set_shard-loads (cell s.store.cells p) u.result (pos (shard i)) u.returned in
        rw e (idle-Stands s i (writing p r.0 r.1) w (l, e))

    storing-Stands :
        (s : System) (i p : ℕ)
        → i < count
        → Stands count peer shard st ready s
        → At count peer shard st ready s.store (peer i) (shard i) (storing p)
        → Stands count peer shard st ready (stepped s i (storing p))
    unfolding add_step
    storing-Stands s i p h w (l, b) = record {
      same_map = λ q. elim (Bool-cases (peer i == q)) [
        | inl on ↦ ground (
          arith,
          lookup-insert (peer i) q p s.store.shard_pref_map,
          on,
          ap (λ r. lookup r st.shard_pref_map) ((bytes_beq_iff (peer i) q).0 on),
          l,
        )
        | inr off ↦
            ground (arith, lookup-insert (peer i) q p s.store.shard_pref_map, off, w.same_map q)
      ];
      same_length = w.same_length;
      forms = w.forms;
      at =
          moved-At count peer shard st ready s.store
            (record s.store { shard_pref_map = insert (peer i) p s.store.shard_pref_map }) s.place i
            (added (ok tt)) (λ k t e. e) (λ j h' ne k m c l' e. e) w.at (refl, p, l, b);
      kept = w.kept;
      only = w.only;
    }

    stepped-Stands :
        (s : System) (i : ℕ) (a : Adding)
        → i < count
        → Stands count peer shard st ready s
        → At count peer shard st ready s.store (peer i) (shard i) a
        → Stands count peer shard st ready (stepped s i a)
    stepped-Stands s i reading h w new =
        let (p, l) = ready.recorded i h in
        unfold add_step in rw (w.same_map (peer i), l) (idle-Stands s i (setting p) w l)
    stepped-Stands s i (setting p) h w new = setting-Stands s i p h w new
    stepped-Stands s i (writing p k b) h w new = writing-Stands s i p k b h w new
    stepped-Stands s i (storing p) h w new = storing-Stands s i p h w new
    stepped-Stands s i (added r) h w new = unfold add_step in idle-Stands s i (added r) w new

    pub Reach-Stands :
        (s : System) → Reach count peer shard st s → Stands count peer shard st ready s
    Reach-Stands s start = start-Stands count peer shard st ready
    Reach-Stands _ (pick {s} r i h) =
        let w = Reach-Stands s r in stepped-Stands s i (s.place i) h w (w.at i h)
