-- ===== src/PrefTable/Store/Race.antt =====
-- Two concurrent calls of `AddPeerListeningShard` for a peer that the map does not hold.
use sharding_p2p_poc.Prelude.{
  ℕ, suc, ◌<◌, ℤ, pos, Bytes, bytes_eq, nat_beq, ◌≡◌, refl, subst, ap, arith, ◌∙◌, List, [], ◌∷◌,
  ◌++◌, none, some, length, length-append, length-set, set,
}
use sharding_p2p_poc.Prelude.Assoc.{lookup, insert, lookup-insert_self}
use sharding_p2p_poc.Outcome.{ok}
use sharding_p2p_poc.Shards.{ListeningShards, num_shards, new_listening_shards}
use sharding_p2p_poc.Shards.View.{
  has_shard, has_shard-new, set_shard-Updates, new_listening_shards-IsWellFormed,
}
use sharding_p2p_poc.PrefTable.Store.{
  Store, cell, Adding, reading, added, add_step, loaded, with_byte,
}
use sharding_p2p_poc.PrefTable.Store.Loads.{set_shard-loads}
use sharding_p2p_poc.PrefTable.Store.Refinement.{
  value, get_or-set_self, get_or-set_ne, get_or-old, get_or-last,
}

-- The store and the two goroutines
pub record Two : Type 0 where
  pub store : Store
  pub first : Adding
  pub second : Adding

module _ (peer : Bytes) (first_id second_id : ℤ) where
  abbrev pub step_first : Two → Two
  step_first w =
      let r = add_step peer first_id w.first w.store in
      record { store = r.1; first = r.0; second = w.second }

  abbrev pub step_second : Two → Two
  step_second w =
      let r = add_step peer second_id w.second w.store in
      record { store = r.1; first = w.first; second = r.0 }

  -- They take turns until both have returned.
  unfoldable pub in_turns : Store → Two
  in_turns st = step_second (
      step_first (
        step_second (
          step_first (
            step_second (
              step_first (
                step_second
                  (step_first (record { store = st; first = reading; second = reading }))))))))

-- The new set of a peer that gets one shard
one_shard :
    (s : ℕ)
    → s < num_shards
    → (r : ℕ × ℕ) × (loaded new_listening_shards (pos s) ≡ ok r)
      × ((t : ℕ) → has_shard (with_byte new_listening_shards r.0 r.1) t ≡ nat_beq s t)
one_shard s h =
    let u = set_shard-Updates new_listening_shards s new_listening_shards-IsWellFormed h in
    let (r, e, same) = set_shard-loads new_listening_shards u.result (pos s) u.returned in
    (
      r,
      e,
      λ t.
          subst (λ l. has_shard l t ≡ nat_beq s t) same (ground (arith, u.bits t, has_shard-new t)),
    )

module _ (st : Store) where
  abbrev one : List ListeningShards
  one = st.cells ++ new_listening_shards ∷ []

  -- The cells after both goroutines have read the map, and after both have set their bits
  abbrev two : List ListeningShards
  two = one ++ new_listening_shards ∷ []

  abbrev both : ListeningShards → ListeningShards → List ListeningShards
  both a b = set (set two (length st.cells) a) (length one) b

  length-one : length one ≡ suc (length st.cells)
  length-one = omega (arith, length-append st.cells (new_listening_shards ∷ []))

  length-two : length two ≡ suc (length one)
  length-two = omega (arith, length-append one (new_listening_shards ∷ []))

  cell_first : cell two (length st.cells) ≡ new_listening_shards
  cell_first =
      get_or-old one (length st.cells) new_listening_shards new_listening_shards
        (omega (arith, length-one))
      ∙ get_or-last st.cells new_listening_shards new_listening_shards

  new_second : cell two (length one) ≡ new_listening_shards
  new_second = get_or-last one new_listening_shards new_listening_shards

  cell_second :
      (a : ListeningShards) → cell (set two (length st.cells) a) (length one) ≡ new_listening_shards
  cell_second a =
      get_or-set_ne two (length st.cells) (length one) a new_listening_shards
        (λ e. omega (arith, length-one, e))
      ∙ get_or-last one new_listening_shards new_listening_shards

  cell-both : (a b : ListeningShards) → cell (both a b) (length one) ≡ b
  cell-both a b =
      get_or-set_self (set two (length st.cells) a) (length one) b new_listening_shards
        (omega (arith, length-two, length-set two (length st.cells) a))

  in_turns_lem :
      (peer : Bytes) (x y : ℤ) (a b : ℕ × ℕ)
      → lookup peer st.shard_pref_map ≡ none
      → loaded new_listening_shards x ≡ ok a
      → loaded new_listening_shards y ≡ ok b
      → in_turns peer x y st ≡ record {
        store = record {
          cells =
              both
                (with_byte new_listening_shards a.0 a.1)
                (with_byte new_listening_shards b.0 b.1);
          shard_pref_map =
              insert peer (length one) (insert peer (length st.cells) st.shard_pref_map);
        };
        first = added (ok tt);
        second = added (ok tt);
      }
  unfolding in_turns add_step
  in_turns_lem peer x y a b absent set_a set_b =
      rw (absent, absent, cell_first, set_a, new_second, set_b, cell_first, cell_second _) refl

-- Both calls have returned without an error, and the peer has the shard `t` only.
pub record Overwritten (peer : Bytes) (t : ℕ) (w : Two) : Type 0 where
  pub first_returned : w.first ≡ added (ok tt)
  pub second_returned : w.second ≡ added (ok tt)
  pub entry : ListeningShards
  pub found : value w.store.cells (lookup peer w.store.shard_pref_map) ≡ some entry
  pub bits : (k : ℕ) → has_shard entry k ≡ nat_beq t k

-- If two calls of AddPeerListeningShard, for a peer that the map does not hold and two shards
-- below 100, take turns step by step, then both return without an error, and the peer has the
-- second shard only.
pub lost_update :
    (st : Store) (peer : Bytes) (s t : ℕ)
    → lookup peer st.shard_pref_map ≡ none
    → s < num_shards
    → t < num_shards
    → Overwritten peer t (in_turns peer (pos s) (pos t) st)
lost_update st peer s t absent hs ht =
    let (a, set_a, bits_a) = one_shard s hs in
    let (b, set_b, bits_b) = one_shard t ht in
    let e = in_turns_lem st peer (pos s) (pos t) a b absent set_a set_b in
    rw e (record {
      first_returned = refl;
      second_returned = refl;
      entry = with_byte new_listening_shards b.0 b.1;
      found =
          rw
            (lookup-insert_self peer (length (one st))
              (insert peer (length st.cells) st.shard_pref_map))
            (ap some (cell-both st _ _));
      bits = bits_b;
    })
