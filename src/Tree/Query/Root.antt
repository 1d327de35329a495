-- ===== src/Tree/Query/Root.antt =====
-- `root` of a tree that holds some leaves.
use rs_merkle_tree.Base.{ℕ, ◌<◌, ◌≡◌, List, [], ◌∷◌, arith, ap, ◌∙◌, sym, refl}
use rs_merkle_tree.Run.{ok, unwrap_or}
use rs_merkle_tree.Node.{Node}
use rs_merkle_tree.Store.{Store, StoreLaws}
use rs_merkle_tree.Tree.{MerkleTree, as_u32}
use rs_merkle_tree.Tree.Spec.{IsTree, stored, node_at, zero_at, Represents}
use rs_merkle_tree.Tree.Spec.Reference.{reference_root, reference_root-node_at}
use rs_merkle_tree.Tree.Spec.Facts.{unwrap-stored}
use rs_merkle_tree.Tree.Insert.Levels.{zeros_index-zero_at}
use rs_merkle_tree.Tree.Query.{first_fetched, root}

-- `root` reads one position: that of the root of the padded tree of the leaves.
pub root-stored :
    {S : Type 0} ⦃st : Store S⦄ (laws : StoreLaws st) (depth : ℕ) (t : MerkleTree S)
    (xs : List Node)
    → depth < 64
    → IsTree depth t
    → laws.IsValid t.store
    → laws.look t.store depth 0 ≡ stored t.hasher.hash xs depth 0
    → root depth t ≡ ok (node_at t.hasher.hash xs depth 0)
unfolding root first_fetched
root-stored laws depth t xs small is_tree valid top =
    let narrow : as_u32 depth ≡ depth = omega arith in
    rw (
      narrow,
      laws.get_ok t.store (depth ∷ []) (0 ∷ []) valid ((omega arith, tt), (omega arith, tt))
          (omega arith) refl,
      zeros_index-zero_at depth t is_tree depth (omega arith),
      ap (λ o. unwrap_or o (zero_at t.hasher.hash depth)) top
          ∙ unwrap-stored t.hasher.hash xs depth 0,
    )

module _ {S : Type 0} ⦃st : Store S⦄ (laws : StoreLaws st) (depth : ℕ) (small : depth < 64)
    (t : MerkleTree S) (xs : List Node) (r : Represents laws depth t xs) where
  abbrev hash : Node → Node → Node
  hash = t.hasher.hash

  -- `root` is the root of the padded tree of the leaves.
  pub root-node_at : root depth t ≡ ok (node_at hash xs depth 0)
  root-node_at = root-stored laws depth t xs small r.is_tree r.valid (r.holds depth 0 (omega arith))

  -- In a tree of depth below 64 that holds the leaves `xs`: `root` returns what the bottom-up
  -- computation of the tests gives for the padded list of leaves.
  pub root-reference_root : root depth t ≡ reference_root hash depth xs
  root-reference_root = root-node_at ∙ sym (reference_root-node_at hash depth xs r.fits)
