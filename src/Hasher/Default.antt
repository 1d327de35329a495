-- ===== src/Hasher/Default.antt =====
-- The default `hash_pairs` keeps the trait's promise.
use rs_merkle_tree.Base.{
  inr, ==_iff, inl, Bool-cases, ◌∙◌, if◌then◌else◌, ◌≡◌, List, [], ◌∷◌, map, length, arith, ap,
  refl, ◌==◌,
}
use rs_merkle_tree.Run.{ok, panic}
use rs_merkle_tree.Node.{Node, IsNode}
use rs_merkle_tree.Hasher.{IsHasher, hash_pair, fill, default_hash_pairs}

module _ (hash : Node → Node → Node) where
  fill-map :
      (pairs : List (Node × Node)) (out : List Node)
      → length pairs ≡ length out
      → fill hash pairs out ≡ map (hash_pair hash) pairs
  unfolding fill
  fill-map [] [] h = refl
  fill-map [] (o ∷ out) h = absurd (omega arith)
  fill-map ((l, r) ∷ pairs) [] h = absurd (omega arith)
  fill-map ((l, r) ∷ pairs) (o ∷ out) h = ap (◌∷◌ (hash l r)) (fill-map pairs out (omega arith))

  -- The default `hash_pairs` hashes pair by pair where `pairs` and `out` have the same length,
  -- and panics where they have not.
  pub default_hash_pairs-map :
      (pairs : List (Node × Node)) (out : List Node)
      → default_hash_pairs hash pairs out
        ≡ (if length pairs == length out then ok (map (hash_pair hash) pairs) else panic)
  unfolding default_hash_pairs
  default_hash_pairs-map pairs out = elim (Bool-cases (length pairs == length out)) [
    | inl same ↦ rw (same, fill-map pairs out ((==_iff _ _).0 same))
    | inr other ↦ rw other
  ]

  -- A hasher with the default `hash_pairs` is lawful, if its hashes are nodes.
  pub default-IsHasher :
      ((l r : Node) → IsNode (hash l r))
      → IsHasher (record { hash = hash; hash_pairs = default_hash_pairs hash })
  default-IsHasher nodes = record {
    pairs_ok = λ pairs out h _. default_hash_pairs-map pairs out ∙ ground arith;
    hash-IsNode = nodes;
  }
