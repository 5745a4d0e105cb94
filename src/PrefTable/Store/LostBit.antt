-- ===== src/PrefTable/Store/LostBit.antt =====
-- Two concurrent calls of `AddPeerListeningShard` for a peer that the map holds, and two shards of one
-- byte: `setShard` reads and writes the byte without a lock.
use sharding_p2p_poc.Prelude.{
  ℕ, ◌<◌, ◌/◌, pos, Bytes, bytes_eq, ◌||◌, nat_beq, ◌≡◌, refl, subst, sym, ap, ◌∙◌, some, length,
  length-set, set,
}
use sharding_p2p_poc.Prelude.Assoc.{lookup, insert, lookup-insert_self}
use sharding_p2p_poc.Outcome.{ok}
use sharding_p2p_poc.Shards.{ListeningShards, num_shards, new_listening_shards}
use sharding_p2p_poc.Shards.View.{has_shard, IsWellFormed, set_shard-Updates}
use sharding_p2p_poc.PrefTable.Store.{Store, cell, added, add_step, loaded, with_byte}
use sharding_p2p_poc.PrefTable.Store.Loads.{set_shard-loads, loaded-index, set-set}
use sharding_p2p_poc.PrefTable.Store.Refinement.{value, get_or-set_self}
use sharding_p2p_poc.PrefTable.Store.Race.{Two, in_turns}

-- Both calls have returned without an error, and the peer has the shard `t` and those it had before,
-- and no others.
pub record Loses (peer : Bytes) (t : ℕ) (before : ListeningShards) (w : Two) : Type 0 where
  pub first_returned : w.first ≡ added (ok tt)
  pub second_returned : w.second ≡ added (ok tt)
  pub entry : ListeningShards
  pub found : value w.store.cells (lookup peer w.store.shard_pref_map) ≡ some entry
  pub bits : (k : ℕ) → has_shard entry k ≡ (nat_beq t k || has_shard before k)

module _ (st : Store) (peer : Bytes) (p : ℕ) (at : lookup peer st.shard_pref_map ≡ some p)
    (lt : p < length st.cells) where
  abbrev before : ListeningShards
  before = cell st.cells p

  -- What is behind the pointer after both have written
  abbrev last : ℕ × ℕ → ℕ × ℕ → ListeningShards
  last a b = with_byte (with_byte before a.0 a.1) b.0 b.1

  in_turns-recorded :
      (s t : ℕ) (a b : ℕ × ℕ)
      → loaded before (pos s) ≡ ok a
      → loaded before (pos t) ≡ ok b
      → in_turns peer (pos s) (pos t) st ≡ record {
        store = record {
          cells = set (set st.cells p (with_byte before a.0 a.1)) p (last a b);
          shard_pref_map = insert peer p (insert peer p st.shard_pref_map);
        };
        first = added (ok tt);
        second = added (ok tt);
      }
  unfolding in_turns add_step
  in_turns-recorded s t a b load_a load_b =
      rw
        (
          at,
          at,
          load_a,
          load_b,
          get_or-set_self st.cells p (with_byte before a.0 a.1) new_listening_shards lt,
        )
        refl

  -- If two calls of AddPeerListeningShard, for a peer whose entry in the map is a well-formed set
  -- of its own cell, and two shards below 100 of the same byte, take turns step by step, then both
  -- return without an error, and the peer has the second shard and those that it had before, and
  -- no others.
  pub lost_bit :
      (s t : ℕ)
      → IsWellFormed (cell st.cells p)
      → s < num_shards
      → t < num_shards
      → s / 8 ≡ t / 8
      → Loses peer t (cell st.cells p) (in_turns peer (pos s) (pos t) st)
  lost_bit s t w hs ht same_byte =
      let u = set_shard-Updates before s w hs in
      let v = set_shard-Updates before t w ht in
      let (a, load_a, result_a) = set_shard-loads before u.result (pos s) u.returned in
      let (b, load_b, result_b) = set_shard-loads before v.result (pos t) v.returned in
      let index : a.0 ≡ b.0 =
        loaded-index before s a.0 a.1 hs load_a
        ∙ same_byte
        ∙ sym (loaded-index before t b.0 b.1 ht load_b) in
      let overwritten : last a b ≡ v.result =
        subst (λ i. last (i, a.1) b ≡ v.result) (sym index)
          (ap (λ bytes. record { shard_bits = bytes }) (set-set before.shard_bits b.0 a.1 b.1)
            ∙ sym result_b) in
      rw (in_turns-recorded s t a b load_a load_b) (record {
        first_returned = refl;
        second_returned = refl;
        entry = v.result;
        found = rw (lookup-insert_self peer p (insert peer p st.shard_pref_map)) (
            ap some (
              get_or-set_self (set st.cells p (with_byte before a.0 a.1)) p (last a b)
                new_listening_shards (rw (length-set st.cells p (with_byte before a.0 a.1)) lt)
              ∙ overwritten));
        bits = v.bits;
      })
