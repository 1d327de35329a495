-- ===== src/Tests/Schedules.antt =====
-- The parallel hashing of 130 pairs, in three chunks of which the last one is short.
use rs_merkle_tree.Tree.Level.Parallel.{IsSchedule, hash_chunks, hash_chunks-hash_body}
use rs_merkle_tree.Tree.Level.{hash_body}
use rs_merkle_tree.Hasher.{IsPair, hash_pair}
use rs_merkle_tree.Tests.{node, node-IsNode, hasher, hasher-IsHasher}
use rs_merkle_tree.Node.{Node, zero_node}
use rs_merkle_tree.Run.{ok}
use rs_merkle_tree.Base.{ℕ, zero, suc, ◌≡◌, refl, List, [], ◌∷◌, map, arith, length, replicate, All}

abbrev pairs : List (Node × Node)
pairs = replicate 130 (node 1, node 2)

abbrev out : List Node
out = replicate 130 zero_node

pairs-are : (n : ℕ) → All IsPair (replicate n (node 1, node 2))
pairs-are zero = tt
pairs-are (suc n) = ((node-IsNode 1 (omega arith), node-IsNode 2 (omega arith)), pairs-are n)

-- The last chunk first.
three_chunks-IsSchedule : IsSchedule (length pairs) (2 ∷ 0 ∷ 1 ∷ [])
three_chunks-IsSchedule = record {
  in_range = (omega arith, (omega arith, (omega arith, tt)));
  every_chunk = λ k inside. ground arith;
}

hash_chunks-hash_body_example :
    (hash_chunks hasher pairs (2 ∷ 0 ∷ 1 ∷ []) out ≡ hash_body hasher pairs out)
    × (hash_body hasher pairs out ≡ ok (map (hash_pair hasher.hash) pairs))
hash_chunks-hash_body_example =
    hash_chunks-hash_body hasher hasher-IsHasher pairs (pairs-are 130) (2 ∷ 0 ∷ 1 ∷ []) out refl
      three_chunks-IsSchedule
