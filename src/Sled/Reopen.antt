-- ===== src/Sled/Reopen.antt =====
-- `SledStore::new` over the database of a valid store.
use rs_merkle_tree.Sled.Reads.{IsValid}
use rs_merkle_tree.Sled.{SledStore, new}
use rs_merkle_tree.KeyValue.Valid.{look}
use rs_merkle_tree.KeyValue.Keys.{num_leaves_key, key_of}
use rs_merkle_tree.KeyValue.{Key, Database, DatabaseLaws, Reply, done}
use rs_merkle_tree.Run.{ok}
use rs_merkle_tree.Base.{
  ◌∙◌, ℕ, ◌≡◌, refl, sym, ap, inl, inr, none, arith, ◌==◌, if◌then◌else◌, Bool-cases,
}

module _ {D : Type 0} {db : Database D} (laws : DatabaseLaws db) (clear : D → D × Reply (Unit {0}))
    (clear_ok : (d : D)
      → laws.IsSound d
      → (d' : D) × (clear d ≡ (d', done tt))
        × laws.IsSound d'
        × ((key : Key) → laws.entries d' key ≡ none)) where
  -- A valid store that is opened again has the same number of leaves, and each position reads as it
  -- did; where it has no leaves it is emptied.
  pub sled_new_ok :
      (s : SledStore D)
      → IsValid laws s
      → (s' : SledStore D) × (new db clear s.db ≡ ok s')
        × IsValid laws s'
        × (s'.num_leaves ≡ s.num_leaves)
        × ((l i : ℕ)
            → look laws s'.db l i ≡ (if s.num_leaves == 0 then none else look laws s.db l i))
  unfolding new
  sled_new_ok s v = elim (Bool-cases (s.num_leaves == 0)) [
    | inl empty ↦
        let (d', e, sound, gone) = clear_ok s.db v.sound in
        let zero_leaves : s.num_leaves ≡ 0 = ground arith in
        (
          record { db = d'; num_leaves = s.num_leaves },
          rw (laws.get_ok s.db num_leaves_key v.sound, v.saved, empty, e),
          record {
            sound = sound;
            whole = λ l i n found.
                let nothing : look laws d' l i ≡ none = rw (gone (key_of l i)) (ground arith) in
                absurd (cc (sym nothing ∙ found));
            word = v.word;
            saved = rw (gone num_leaves_key) (ap ok (sym zero_leaves));
          },
          refl,
          λ l i. rw (empty, gone (key_of l i)) (ground arith),
        )
    | inr some_leaves ↦ (
      s,
      rw (laws.get_ok s.db num_leaves_key v.sound, v.saved, some_leaves),
      v,
      refl,
      λ l i. rw some_leaves,
    )
  ]

  -- A sound database without a count is emptied, whatever else it holds.
  pub sled_new-uncounted :
      (d : D)
      → laws.IsSound d
      → laws.entries d num_leaves_key ≡ none
      → (s : SledStore D) × (new db clear d ≡ ok s)
        × IsValid laws s
        × (s.num_leaves ≡ 0)
        × ((l i : ℕ) → look laws s.db l i ≡ none)
  unfolding new
  sled_new-uncounted d sound uncounted =
      let (d', e, sound', gone) = clear_ok d sound in
      let nothing : (l i : ℕ) → look laws d' l i ≡ none =
        λ l i. rw (gone (key_of l i)) (ground arith) in
      (
        record { db = d'; num_leaves = 0 },
        rw (laws.get_ok d num_leaves_key sound, uncounted, e),
        record {
          sound = sound';
          whole = λ l i n found. absurd (cc (sym (nothing l i) ∙ found));
          word = omega arith;
          saved = rw (gone num_leaves_key);
        },
        refl,
        nothing,
      )
