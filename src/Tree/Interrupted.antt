-- ===== src/Tree/Interrupted.antt =====
-- What a tree answers after an `add_leaves` that failed.
use rs_merkle_tree.Hasher.{Hasher}
use rs_merkle_tree.Store.{Store, StoreLaws}
use rs_merkle_tree.Run.Method.{Ends-cases}
use rs_merkle_tree.Node.{Node, IsNode}
use rs_merkle_tree.Run.{MerkleError, ok, err}
use rs_merkle_tree.Base.{
  ℕ, ◌+◌, ◌^◌, ◌<◌, ◌≡◌, refl, sym, ap, ◌∙◌, ◌⊎◌, inl, inr, List, ◌++◌, arith, ltb, ◌==◌,
  Bool-cases, length, All, length-append,
}
use rs_merkle_tree.Tree.{MerkleTree}
use rs_merkle_tree.Tree.Spec.{node_at, stored, Represents}
use rs_merkle_tree.Tree.Insert.{add_leaves}
use rs_merkle_tree.Tree.Insert.Ends.{Interrupted}
use rs_merkle_tree.Tree.Insert.Correct.{add_leaves-Ends, add_leaves-tree_full}
use rs_merkle_tree.Tree.Query.{root, num_leaves}
use rs_merkle_tree.Tree.Query.Root.{root-stored, root-node_at}

module _ {S : Type 0} ⦃st : Store S⦄ (laws : StoreLaws st) (depth : ℕ) (small : depth < 64)
    (t : MerkleTree S) (xs : List Node) (r : Represents laws depth t xs) where
  -- Whether the leaves were counted: where they were not the tree holds what it held, and where
  -- they were it has them at level 0 only.
  abbrev pub Failed : List Node → MerkleTree S → Type 0
  Failed leaves t' =
      (root depth t' ≡ root depth t)
      × (t'.hasher ≡ t.hasher)
      × (((num_leaves t' ≡ num_leaves t) × Represents laws depth t' xs)
          ⊎ ((num_leaves t' ≡ num_leaves t + length leaves)
              × ((i : ℕ) → laws.look t'.store 0 i ≡ stored t.hasher.hash (xs ++ leaves) 0 i)))

  pub Interrupted-Failed :
      (leaves : List Node) (t' : MerkleTree S) (level : ℕ)
      → Interrupted laws depth xs leaves t' level
      → t'.hasher ≡ t.hasher
      → Failed leaves t'
  unfolding num_leaves
  Interrupted-Failed leaves t' level v same = (
    root-stored laws depth t' xs small v.is_tree v.valid
          (v.above depth 0 v.level_fits (omega arith))
        ∙ ap (λ (h : Hasher). ok (node_at h.hash xs depth 0)) same
        ∙ sym (root-node_at laws depth small t xs r),
    same,
    elim (Bool-cases (level == 0)) [
      | inl bottom ↦ inl (
        v.counted ∙ rw bottom (sym r.counted),
        record {
          is_tree = v.is_tree;
          valid = v.valid;
          holds = λ l i le. v.above l i (ground arith) le;
          counted = v.counted ∙ rw bottom;
          fits = r.fits;
          roomy = r.roomy;
          are_nodes = r.are_nodes;
        },
      )
      | inr higher ↦ inr (
        v.counted ∙ rw higher (omega (arith, length-append xs leaves, r.counted)),
        λ i.
            v.below 0 i (ground arith) ∙ ap (λ (h : Hasher). stored h.hash (xs ++ leaves) 0 i) same,
      )
    ],
  )

  -- In a tree of depth below 64 that holds the leaves `xs`, over any store with the laws: when
  -- `add_leaves` of nodes (fewer than `2 ^ 63`) fails, with whatever error, the root and the hasher
  -- are as they were; and either the number of leaves is too, and the tree holds `xs`, so that the
  -- call can be made again, or the new leaves are counted and stored, although the root lacks them.
  pub add_leaves-Failed :
      (leaves : List Node) (t' : MerkleTree S) (e : MerkleError)
      → All IsNode leaves
      → length leaves < 2 ^ 63
      → add_leaves depth leaves t ≡ (t', err e)
      → Failed leaves t'
  add_leaves-Failed leaves t' e are_nodes bounded failure =
      elim (Bool-cases (ltb (2 ^ depth) (length xs + length leaves))) [
        | inl over ↦
            let full =
              add_leaves-tree_full laws depth small t xs r leaves (ground arith)
                (ground (arith, r.fits)) bounded in
            let same : t' ≡ t = ap (λ u. u.0) (sym failure ∙ full) in
            rw same (refl, refl, inl (refl, r))
        | inr fits ↦
            elim (Ends-cases
              (add_leaves-Ends laws depth small t xs r leaves (ground arith) are_nodes)) [
                | inl (u, a, went_through, _) ↦ absurd (cc (sym failure ∙ went_through))
                | inr (u, e', failed, (level, v, same)) ↦
                    let this : t' ≡ u = ap (λ u. u.0) (sym failure ∙ failed) in
                    rw this (Interrupted-Failed leaves u level v same)
              ]
      ]
