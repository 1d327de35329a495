-- ===== src/Tree/Reach.antt =====
-- The trees that calls of `add_leaves` lead to, accepted and refused ones in any order.
use rs_merkle_tree.Tree.Query.Verify.{verify_proof-proof}
use rs_merkle_tree.Tree.Query.Read.{proof_at, proof-proof_at}
use rs_merkle_tree.Tree.Query.{num_leaves, proof, verify_proof}
use rs_merkle_tree.Store.{Store, StoreLaws}
use rs_merkle_tree.Run.Method.{Returns, Returns-map, Returns-state}
use rs_merkle_tree.Node.{Node, IsNode}
use rs_merkle_tree.Run.{ok}
use rs_merkle_tree.Base.{
  get_elem?-append-right, ◌≤◌, length-append, get_elem?-le, get_elem?-append, ℕ, ◌+◌, ◌^◌, ◌<◌, ◌≡◌,
  refl, ap, ◌∙◌, inl, inr, true, some, List, [], ◌++◌, append-nil, append_assoc, arith, ltb,
  Bool-cases, length, get_elem?, All,
}
use rs_merkle_tree.Tree.Spec.{Represents}
use rs_merkle_tree.Tree.{MerkleProof, MerkleTree}
use rs_merkle_tree.Tree.Insert.{add_leaves}
use rs_merkle_tree.Tree.Insert.Correct.{add_leaves-Represents, add_leaves-tree_full}

module _ {S : Type 0} ⦃st : Store S⦄ where
  -- `Reaches depth t u`: `u` is `t` after some calls of `add_leaves`. A slice has fewer than
  -- `2 ^ 63` nodes.
  pub data Reaches (depth : ℕ) (t : MerkleTree S) : MerkleTree S → Type 0 where
    start : Reaches depth t t
    calls :
        (u : MerkleTree S) (leaves : List Node)
        → Reaches depth t u
        → All IsNode leaves
        → length leaves < 2 ^ 63
        → Reaches depth t (add_leaves depth leaves u).0

  module _ (laws : StoreLaws st) (depth : ℕ) (small : depth < 64) (steady : ¬ laws.Refuses) where
    -- The proof at an index is made, shows the leaf, and is accepted.
    abbrev pub Shows : MerkleTree S → ℕ → Node → Type 0
    Shows u leaf_idx leaf =
        (p : MerkleProof) × (proof depth leaf_idx u ≡ ok p)
        × (p.leaf ≡ leaf)
        × (verify_proof u p ≡ ok true)

    pub Represents-Shows :
        (u : MerkleTree S) (xs : List Node)
        → Represents laws depth u xs
        → (leaf_idx : ℕ) (leaf : Node) → get_elem? xs leaf_idx ≡ some leaf
        → Shows u leaf_idx leaf
    Represents-Shows u xs r leaf_idx leaf found =
        let inside : leaf_idx < length xs = ground (arith, get_elem?-le xs leaf_idx) in
        let place : leaf_idx < 2 ^ depth = omega (arith, r.fits) in
        let shown = proof_at laws depth small u xs r leaf_idx in
        let made : proof depth leaf_idx u ≡ ok shown =
          proof-proof_at laws depth small u xs r leaf_idx ∙ ground arith in
        let accepted = verify_proof-proof laws depth small u xs r leaf_idx place in
        (shown, made, ground (arith, found), rw made at accepted)

    -- What one call leaves behind: the leaves with the new ones, or the tree as it was.
    add_leaves_either :
        (t : MerkleTree S) (xs leaves : List Node)
        → Represents laws depth t xs
        → All IsNode leaves
        → length leaves < 2 ^ 63
        → (added : List Node) × Represents laws depth (add_leaves depth leaves t).0 (xs ++ added)
          × ((add_leaves depth leaves t).0.hasher ≡ t.hasher)
    add_leaves_either t xs leaves r are_nodes bounded =
        elim (Bool-cases (ltb (2 ^ depth) (length xs + length leaves))) [
          | inl over ↦
              let refused =
                add_leaves-tree_full laws depth small t xs r leaves (ground arith)
                  (ground (arith, r.fits)) bounded in
              ([], rw (append-nil xs, refused) r, ap (λ u. u.0.hasher) refused)
          | inr fits ↦
              let (_, kept) = Returns-state (
                add_leaves-Represents laws depth small t xs r leaves steady (ground arith)
                  are_nodes) in
              (leaves, kept.0, kept.1)
        ]

    -- In a tree of depth below 64 that holds the leaves `xs`, over a store that refuses no write:
    -- after any sequence of calls of `add_leaves`, with batches of nodes that fit or do not, the
    -- tree holds `xs` followed by other leaves, with every ancestor up to the root, and has the
    -- same hasher.
    pub Reaches-Represents :
        (t u : MerkleTree S) (xs : List Node)
        → Represents laws depth t xs
        → Reaches depth t u
        → (added : List Node) × Represents laws depth u (xs ++ added) × (u.hasher ≡ t.hasher)
    Reaches-Represents t u xs r start = ([], rw (append-nil xs) r, refl)
    Reaches-Represents t _ xs r (calls u leaves reached are_nodes bounded) =
        let (added, r', same) = Reaches-Represents t u xs r reached in
        let (more, r'', same') = add_leaves_either u (xs ++ added) leaves r' are_nodes bounded in
        (added ++ more, rw (append_assoc xs added more) at r'', same' ∙ same)

    -- In a tree of depth below 64 that holds the leaves `xs`, over a store that refuses no write:
    -- after any sequence of calls of `add_leaves`, with batches that fit or do not, a batch of
    -- nodes that fits into the places that are left is taken: the number of leaves grows by its
    -- length, and the proof of each of its nodes, at the index after the leaves before it, is made,
    -- shows that node, and is accepted by `verify_proof`.
    pub Reaches-accepts :
        (t u : MerkleTree S) (xs leaves : List Node)
        → Represents laws depth t xs
        → Reaches depth t u
        → All IsNode leaves
        → num_leaves u + length leaves ≤ 2 ^ depth
        → Returns
            (λ u' _.
              (num_leaves u' ≡ num_leaves u + length leaves)
              × ((j : ℕ) (leaf : Node)
                  → get_elem? leaves j ≡ some leaf
                  → Shows u' (num_leaves u + j) leaf))
            (add_leaves depth leaves u)
    unfolding num_leaves
    Reaches-accepts t u xs leaves r reached are_nodes fits =
        let (added, r', _) = Reaches-Represents t u xs r reached in
        let held = xs ++ added in
        Returns-map
          (add_leaves-Represents laws depth small u held r' leaves steady
            (omega (arith, r'.counted, fits)) are_nodes)
          λ u' _ (r'', _). (
            r''.counted ∙ omega (arith, length-append held leaves, r'.counted),
            λ j leaf found.
                Represents-Shows u' (held ++ leaves) r'' (st.get_num_leaves u.store + j) leaf
                  (rw r'.counted (get_elem?-append-right held leaves j ∙ found)),
          )

    -- In a tree of depth below 64 that holds the leaves `xs`, over a store that refuses no write:
    -- after any sequence of calls of `add_leaves`, the proof of each leaf of `xs` is made, shows
    -- that leaf, and is accepted by `verify_proof`.
    pub Reaches-proof :
        (t u : MerkleTree S) (xs : List Node) (leaf_idx : ℕ) (leaf : Node)
        → Represents laws depth t xs
        → Reaches depth t u
        → get_elem? xs leaf_idx ≡ some leaf
        → Shows u leaf_idx leaf
    Reaches-proof t u xs leaf_idx leaf r reached found =
        let (added, r', _) = Reaches-Represents t u xs r reached in
        let inside : leaf_idx < length xs = ground (arith, get_elem?-le xs leaf_idx) in
        Represents-Shows u (xs ++ added) r' leaf_idx leaf
          (ground (arith, get_elem?-append xs added leaf_idx, found))
