-- ===== src/Checks/OnHashers.antt =====
-- The tests of src/hasher.rs on `hash_pairs`, as functions of the hasher and the pairs, which the
-- source draws at random.
use rs_merkle_tree.Node.{Node, zero_node, node_eq}
use rs_merkle_tree.Run.{◌>>=◌, ◌>>◌, Run, ok, check, slice_to}
use rs_merkle_tree.Base.{
  ℕ, ◌≤◌, ◌≡◌, refl, List, [], ◌∷◌, map, arith, le→ltb, length, take, replicate, All, length-take,
  length-replicate, All-take,
}
use rs_merkle_tree.Checks.{for_each}
use rs_merkle_tree.Checks.Pass.{for_each_ok, All-imp, node_eq-itself}
use rs_merkle_tree.Hasher.{Hasher, IsHasher, IsPair, hash_pair}

-- `for (parent, [left, right]) in parents.iter().zip(pairs)`
abbrev check_parents : Hasher → List Node → List (Node × Node) → Run (Unit {0})
check_parents hasher (parent ∷ parents) ((left, right) ∷ pairs) =
    check (node_eq parent (hasher.hash left right)) >> check_parents hasher parents pairs
check_parents hasher _ _ = ok tt

-- `test_keccak256_hash_pairs_matches_hash`
unfoldable hash_pairs_matches_hash : Hasher → List (Node × Node) → List ℕ → Run (Unit {0})
hash_pairs_matches_hash hasher pairs lens = for_each lens λ n. do
  group ← slice_to pairs n
  parents ← hasher.hash_pairs group (replicate n zero_node)
  check_parents hasher parents group

check_parents-map :
    (hasher : Hasher) (pairs : List (Node × Node))
    → check_parents hasher (map (hash_pair hasher.hash) pairs) pairs ≡ ok tt
check_parents-map hasher [] = refl
check_parents-map hasher ((left, right) ∷ pairs) =
    rw (node_eq-itself (hasher.hash left right), check_parents-map hasher pairs)

-- With a lawful hasher, for any pairs of nodes and any numbers of them, the test passes.
hash_pairs_matches_hash_ok :
    (hasher : Hasher) (pairs : List (Node × Node)) (lens : List ℕ)
    → IsHasher hasher
    → All IsPair pairs
    → All (λ n. n ≤ length pairs) lens
    → hash_pairs_matches_hash hasher pairs lens ≡ ok tt
unfolding hash_pairs_matches_hash
hash_pairs_matches_hash_ok hasher pairs lens is_hasher are_pairs short = for_each_ok lens _ (
    All-imp lens
      (λ n fits.
        let size : length (take n pairs) ≡ length (replicate n zero_node) =
          omega (arith, length-take n pairs, length-replicate n zero_node) in
        rw (
          le→ltb (length pairs) n fits,
          is_hasher.pairs_ok (take n pairs) (replicate n zero_node) size
              (All-take IsPair n pairs are_pairs),
          check_parents-map hasher (take n pairs),
        ))
      short)
