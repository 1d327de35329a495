-- ===== src/Tests/Sources.antt =====
-- The tests of src/tree.rs at depth 3, with the hasher of these tests.
use rs_merkle_tree.Run.{ok}
use rs_merkle_tree.Base.{◌≡◌, [], ◌∷◌, arith}
use rs_merkle_tree.Tests.{hasher, hasher-IsHasher, five, five-nodes}
use rs_merkle_tree.Checks.{batching_matches_incremental}
use rs_merkle_tree.Checks.Pass.{batching_matches_incremental_ok}

batching_matches_incremental_ok_example :
    batching_matches_incremental 3 hasher five (1 ∷ 2 ∷ 3 ∷ 5 ∷ []) ≡ ok tt
batching_matches_incremental_ok_example =
    batching_matches_incremental_ok 3 (omega arith) (omega arith) hasher hasher-IsHasher five
      (omega arith) five-nodes (1 ∷ 2 ∷ 3 ∷ 5 ∷ [])
      (omega arith, (omega arith, (omega arith, (omega arith, tt))))
