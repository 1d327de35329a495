-- ===== src/Tree/Insert/Batches.antt =====
-- Leaves added in batches, as the tests and the benchmarks do with `leaves.chunks(size)`.
use rs_merkle_tree.Base.{
  length-append, ℕ, ◌+◌, ◌^◌, ◌≤◌, ◌<◌, ◌≡◌, List, [], ◌∷◌, ◌++◌, length, flatten, arith, ◌∙◌, sym,
  refl, All, append-nil, append_assoc,
}
use rs_merkle_tree.Run.{ok}
use rs_merkle_tree.Run.Method.{
  Method, Returns, returns, Returns-bind, Returns-map, Returns-inv, return, ◌>>◌,
}
use rs_merkle_tree.Node.{Node, IsNode}
use rs_merkle_tree.Store.{Store, StoreLaws}
use rs_merkle_tree.Tree.{MerkleTree}
use rs_merkle_tree.Tree.Spec.{Represents}
use rs_merkle_tree.Tree.Query.{root, proof, num_leaves}
use rs_merkle_tree.Tree.Query.Agree.{Represents-agree}
use rs_merkle_tree.Tree.Insert.{add_leaves}
use rs_merkle_tree.Tree.Insert.Correct.{add_leaves-Represents}

module _ {S : Type 0} ⦃st : Store S⦄ where
  -- `for batch in batches { tree.add_leaves(batch)? }`
  unfoldable pub add_batches : ℕ → List (List Node) → Method (MerkleTree S) (Unit {0})
  add_batches depth [] = return tt
  add_batches depth (batch ∷ batches) = do add_leaves depth batch; add_batches depth batches

  module _ (laws : StoreLaws st) (depth : ℕ) (small : depth < 64) (steady : ¬ laws.Refuses) where
    pub add_batches-Represents :
        (batches : List (List Node)) (t : MerkleTree S) (xs : List Node)
        → Represents laws depth t xs
        → length xs + length (flatten batches) ≤ 2 ^ depth
        → All (All IsNode) batches
        → Returns
            (λ t' _. Represents laws depth t' (xs ++ flatten batches) × (t'.hasher ≡ t.hasher))
            (add_batches depth batches t)
    unfolding add_batches
    add_batches-Represents [] t xs r fits are_nodes = returns (rw (append-nil xs) r, refl)
    add_batches-Represents (batch ∷ batches) t xs r fits are_nodes =
        Returns-bind
          (add_leaves-Represents laws depth small t xs r batch steady
            (omega (arith, length-append batch (flatten batches))) are_nodes.0)
          λ t' _ (r', same).
            Returns-map
              (add_batches-Represents batches t' (xs ++ batch) r'
                (omega (arith, length-append xs batch, length-append batch (flatten batches)))
                are_nodes.1)
              λ t'' _ (r'', same').
                (rw (append_assoc xs batch (flatten batches)) at r'', same' ∙ same)

    -- In a tree of depth below 64 that holds the leaves `xs`, over a store that refuses no write:
    -- two ways of cutting the same new
    -- leaves into batches, where they fit, both return, and the two trees then have the same
    -- root, the same number of leaves, and the same answer of `proof` for every index.
    pub add_batches-agree :
        (t : MerkleTree S) (xs : List Node) (batches batches' : List (List Node))
        → Represents laws depth t xs
        → flatten batches ≡ flatten batches'
        → length xs + length (flatten batches) ≤ 2 ^ depth
        → All (All IsNode) batches
        → All (All IsNode) batches'
        → (u : MerkleTree S) × (u' : MerkleTree S) × (add_batches depth batches t ≡ (u, ok tt))
          × (add_batches depth batches' t ≡ (u', ok tt))
          × (root depth u ≡ root depth u')
          × (num_leaves u ≡ num_leaves u')
          × ((leaf_idx : ℕ) → proof depth leaf_idx u ≡ proof depth leaf_idx u')
    add_batches-agree t xs batches batches' r same fits nodes nodes' =
        let (u, _, run, (ru, hu)) =
          Returns-inv (add_batches-Represents batches t xs r fits nodes) in
        let (u', _, run', (ru', hu')) =
          Returns-inv (add_batches-Represents batches' t xs r (rw same at fits) nodes') in
        let ru'' = rw (← same) at ru' in
        let (roots, counts, proofs) =
          Represents-agree laws laws depth u u' (xs ++ flatten batches) small ru ru''
            (hu ∙ sym hu') in
        (u, u', run, run', roots, counts, proofs)
