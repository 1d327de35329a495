-- ===== src/Session/Serves.antt =====
-- A tree that holds some leaves and has some hasher, and what opening it again promises.
use rs_merkle_tree.Tree.Spec.{Represents}
use rs_merkle_tree.Hasher.{Hasher}
use rs_merkle_tree.Tree.{MerkleTree}
use rs_merkle_tree.Store.{Store, StoreLaws}
use rs_merkle_tree.Node.{Node}
use rs_merkle_tree.Run.{Run, ok}
use rs_merkle_tree.Base.{ℕ, ◌≡◌, List}

-- The tree holds the leaves `xs`, and has the hasher.
pub record Serves {S : Type 0} {st : Store S} (laws : StoreLaws st) (depth : ℕ) (hasher : Hasher)
    (t : MerkleTree S) (xs : List Node) : Type 0 where
  pub represents : Represents laws depth t xs
  pub same : t.hasher ≡ hasher

module _ {S : Type 0} ⦃st : Store S⦄ (laws : StoreLaws st) (depth : ℕ) (hasher : Hasher) where
  -- Opening again gives a tree of the same leaves and hasher.
  abbrev pub Reopens : (MerkleTree S → Run (MerkleTree S)) → Type 0
  Reopens again =
      (t : MerkleTree S) (xs : List Node)
      → Serves laws depth hasher t xs
      → (t' : MerkleTree S) × (again t ≡ ok t') × Serves laws depth hasher t' xs
