-- ===== src/Session/Refines.antt =====
-- Every sequence of calls over a store that refuses no write answers as it does over the list of
-- the leaves.
use rs_merkle_tree.Session.Follows.{Follows, finished, answered, unchanged, torn, run-Follows}
use rs_merkle_tree.Session.Serves.{Serves, Reopens}
use rs_merkle_tree.Session.{Call, IsCall, run, replay}
use rs_merkle_tree.Hasher.{Hasher}
use rs_merkle_tree.Tree.{MerkleTree}
use rs_merkle_tree.Store.{Store, StoreLaws}
use rs_merkle_tree.Node.{Node}
use rs_merkle_tree.Run.{Run}
use rs_merkle_tree.Base.{ℕ, ◌<◌, ◌≡◌, refl, List, All}

module _ {S : Type 0} ⦃st : Store S⦄ (laws : StoreLaws st) (depth : ℕ) (hasher : Hasher)
    (steady : ¬ laws.Refuses) (again : MerkleTree S → Run (MerkleTree S)) where
  Follows-replay :
      {calls : List Call} {t : MerkleTree S} {xs : List Node}
      → Follows laws depth hasher again calls t xs
      → (u : MerkleTree S) × (run again depth calls t ≡ (u, (replay hasher depth calls xs).1))
        × Serves laws depth hasher u (replay hasher depth calls xs).0
  Follows-replay (finished t xs s) = (t, refl, s)
  Follows-replay (answered c calls t t' xs one rest) =
      let (u, more, s) = Follows-replay rest in (u, rw (one, more), s)
  Follows-replay (unchanged leaves calls t t' xs e refuses failed rest) = absurd (steady refuses)
  Follows-replay (torn leaves calls t t' xs e refuses failed roots grown) = absurd (steady refuses)

  -- In a tree of depth below 64 that holds the leaves `xs`, over a store that refuses no write, and
  -- that can be opened again with the leaves and the hasher of the tree: every sequence of calls
  -- (batches of nodes that fit or do not, `root`, proofs of any index, `num_leaves`, checks of any
  -- proofs, and openings) gives, one by one, the answers that it gives over the list of the leaves,
  -- and leaves a tree that holds the leaves of that list.
  pub run-replay :
      depth < 64
      → Reopens laws depth hasher again
      → (calls : List Call) (t : MerkleTree S) (xs : List Node) → Serves laws depth hasher t xs
      → All IsCall calls
      → (u : MerkleTree S) × (run again depth calls t ≡ (u, (replay hasher depth calls xs).1))
        × Serves laws depth hasher u (replay hasher depth calls xs).0
  run-replay small reopens calls t xs s good =
      Follows-replay (run-Follows laws depth hasher again small reopens calls t xs s good)
