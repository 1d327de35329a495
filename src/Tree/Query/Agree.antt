-- ===== src/Tree/Query/Agree.antt =====
-- What a tree answers depends on its leaves and its hasher only, not on the store or on its
-- history.
use rs_merkle_tree.Tree.Query.Read.{proof-proof_at}
use rs_merkle_tree.Tree.Query.Root.{root-node_at}
use rs_merkle_tree.Tree.Query.{root, proof, num_leaves}
use rs_merkle_tree.Tree.Spec.{node_at, Represents}
use rs_merkle_tree.Tree.Query.Path.{path_from}
use rs_merkle_tree.Hasher.{Hasher}
use rs_merkle_tree.Tree.{MerkleTree, MerkleProof}
use rs_merkle_tree.Store.{Store, StoreLaws}
use rs_merkle_tree.Node.{Node}
use rs_merkle_tree.Run.{leaf_index_out_of_bounds, Run, ok, err, err, leaf_index_out_of_bounds}
use rs_merkle_tree.Base.{ℕ, ◌^◌, ◌<◌, ◌≡◌, sym, ap, ◌∙◌, List, ltb, if◌then◌else◌}

-- What `proof` answers for the leaves `ys`, by the hasher.
abbrev pub answer : ℕ → List Node → ℕ → Hasher → Run MerkleProof
answer depth ys leaf_idx h =
    if ltb (2 ^ depth) leaf_idx
    then err (leaf_index_out_of_bounds leaf_idx (2 ^ depth))
    else ok (record {
      proof = path_from h.hash ys depth 0 leaf_idx;
      leaf = node_at h.hash ys 0 leaf_idx;
      index = leaf_idx;
      root = node_at h.hash ys depth 0;
    })

-- Two trees of one depth below 64, each over a store of its own, that hold the same leaves and have
-- the same hasher: they have the same root, the same number of leaves, and the same answer of
-- `proof` for every index.
pub Represents-agree :
    {S S' : Type 0} ⦃st : Store S⦄ ⦃st' : Store S'⦄ (laws : StoreLaws st) (laws' : StoreLaws st')
    (depth : ℕ) (t : MerkleTree S) (t' : MerkleTree S') (xs : List Node)
    → depth < 64
    → Represents laws depth t xs
    → Represents laws' depth t' xs
    → t.hasher ≡ t'.hasher
    → (root depth t ≡ root depth t')
      × (num_leaves t ≡ num_leaves t')
      × ((leaf_idx : ℕ) → proof depth leaf_idx t ≡ proof depth leaf_idx t')
unfolding num_leaves
Represents-agree laws laws' depth t t' xs small r r' hashers = (
  root-node_at laws depth small t xs r
      ∙ ap (λ (h : Hasher). ok (node_at h.hash xs depth 0)) hashers
      ∙ sym (root-node_at laws' depth small t' xs r'),
  r.counted ∙ sym r'.counted,
  λ leaf_idx.
      proof-proof_at laws depth small t xs r leaf_idx
      ∙ ap (answer depth xs leaf_idx) hashers
      ∙ sym (proof-proof_at laws' depth small t' xs r' leaf_idx),
)
