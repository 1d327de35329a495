-- ===== src/Sled/Reads.antt =====
-- The keys of `SledStore`, and its `get` over a lawful database.
use rs_merkle_tree.Store.{AreWords, look_each}
use rs_merkle_tree.Sled.{get, SledStore, read_each, encode_key, decode_node, read_node}
use rs_merkle_tree.KeyValue.Valid.{Keeps, look}
use rs_merkle_tree.KeyValue.Keys.{
  key_of-injective, key_of-ne-num_leaves_key, num_leaves_key, key_of,
}
use rs_merkle_tree.KeyValue.{Database, DatabaseLaws}
use rs_merkle_tree.Node.{len}
use rs_merkle_tree.Run.{length_mismatch, err, ok, index}
use rs_merkle_tree.Base.{
  ◌⊎◌, ◌≢◌, inl, inr, true, ◌&&◌, ltb, ◌==◌, Option-cases, ℕ, ◌^◌, ◌<◌, ◌≡◌, refl, List, [], ◌∷◌,
  arith, length,
}

pub encode_key-key_of : (level index : ℕ) → encode_key level index ≡ key_of level index
unfolding encode_key
encode_key-key_of level index = refl

-- Two positions, of levels below `2 ^ 32` and indices below `2 ^ 64`, have two keys, and the first
-- one's is not that of the number of leaves.
pub encode_key-ne :
    (l i k j : ℕ)
    → l < 2 ^ 32
    → k < 2 ^ 32
    → i < 2 ^ 64
    → j < 2 ^ 64
    → (l ≢ k) ⊎ (i ≢ j)
    → (encode_key l i ≢ encode_key k j) × (encode_key l i ≢ num_leaves_key)
unfolding encode_key
encode_key-ne l i k j hl hk hi hj other = (
  (λ same.
      let (level, index) = key_of-injective l i k j hl hk hi hj same in
      elim other [ inl different ↦ different level | inr different ↦ different index ]),
  key_of-ne-num_leaves_key l i,
)

module _ {D : Type 0} {db : Database D} (laws : DatabaseLaws db) where
  read_node_ok :
      (d : D) (num_leaves l i : ℕ)
      → Keeps laws d num_leaves
      → l < 2 ^ 32
      → i < 2 ^ 64
      → read_node db d l i ≡ ok (look laws d l i)
  unfolding read_node decode_node
  read_node_ok d num_leaves l i k hl hi =
      let words : (ltb l (2 ^ 32) && ltb i (2 ^ 64)) ≡ true = ground arith in
      rw (encode_key-key_of l i, laws.get_ok d (key_of l i) k.sound, words)
        (elim (Option-cases (laws.entries d (key_of l i))) [
          | inl absent ↦ rw absent
          | inr (bytes, found) ↦
              let size : length bytes ≡ len =
                k.whole l i (record { bytes = bytes }) (rw (words, found)) in
              let test : (length bytes == len) ≡ true = ground arith in rw (found, test)
        ])

  read_each_ok :
      (d : D) (num_leaves : ℕ) (levels indices : List ℕ)
      → Keeps laws d num_leaves
      → AreWords levels indices
      → read_each db d levels indices ≡ ok (look_each (look laws d) levels indices)
  unfolding read_each
  read_each_ok d num_leaves [] indices k words = refl
  read_each_ok d num_leaves (l ∷ levels) [] k words = refl
  read_each_ok d num_leaves (l ∷ levels) (i ∷ indices) k words = rw (
    read_node_ok d num_leaves l i k words.0.0 words.1.0,
    read_each_ok d num_leaves levels indices k (words.0.1, words.1.1),
  )

  -- The database keeps what the store has been given, and the store has its count.
  abbrev pub IsValid : SledStore D → Type 0
  IsValid s = Keeps laws s.db s.num_leaves

  pub get_ok :
      (s : SledStore D) (levels indices : List ℕ)
      → IsValid s
      → AreWords levels indices
      → length levels ≡ length indices
      → get db s levels indices ≡ ok (look_each (look laws s.db) levels indices)
  unfolding get
  get_ok s levels indices v words same =
      rw (read_each_ok s.db s.num_leaves levels indices v words) (ground arith)

  pub get_mismatch :
      (s : SledStore D) (levels indices : List ℕ)
      → length levels ≢ length indices
      → get db s levels indices ≡ err (length_mismatch (length levels) (length indices))
  unfolding get
  get_mismatch s levels indices h = ground arith
