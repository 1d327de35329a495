-- ===== src/Tree/Query/Size.antt =====
-- The shape of a proof, whatever the tree's store answers.
use rs_merkle_tree.Store.{Store}
use rs_merkle_tree.Node.{zero_node, Node}
use rs_merkle_tree.Run.{
  IfOk-inv, if_ok, if_panic, assign, unwrap_or, IfOk, IfOk-bind, IfOk-itself, ok,
}
use rs_merkle_tree.Base.{
  suc, refl, ◌∙◌, inl, inr, ◌++◌, ltb, Bool-cases, take, replicate, length-set, length-replicate, ℕ,
  ◌≡◌, Option, List, [], ◌∷◌, length,
}
use rs_merkle_tree.Tree.{bit64, MerkleTree, MerkleProof, Zeros, zeros_index}
use rs_merkle_tree.Tree.Query.{root, proof, read_proof, fill_proof, sibling_list}

assign-length :
    (xs : List Node) (i : ℕ) (n : Node) → IfOk (λ ys. length ys ≡ length xs) (assign xs i n)
assign-length xs i n = elim (Bool-cases (ltb i (length xs))) [
  | inl inside ↦ rw inside (if_ok (length-set xs i n))
  | inr outside ↦ rw outside if_panic
]

fill_proof-length :
    (depth : ℕ) (zeros : Zeros) (d n : ℕ) (fetched : List (Option Node)) (proof : List Node)
    → length proof ≡ n
    → IfOk (λ filled. length filled ≡ n) (fill_proof depth zeros d fetched proof)
unfolding fill_proof
fill_proof-length depth zeros d n [] proof size = if_ok size
fill_proof-length depth zeros d n (opt ∷ fetched) proof size =
    IfOk-bind (IfOk-itself (zeros_index depth zeros d)) λ zero _.
      IfOk-bind (assign-length proof d (unwrap_or opt zero))
        λ proof' same. fill_proof-length depth zeros (suc d) n fetched proof' (same ∙ size)

module _ {S : Type 0} ⦃st : Store S⦄ where
  -- What a proof for `leaf_idx` has.
  abbrev pub Shaped : ℕ → ℕ → MerkleTree S → MerkleProof → Type 0
  Shaped depth leaf_idx t p =
      (length p.proof ≡ depth) × (p.index ≡ leaf_idx) × (root depth t ≡ ok p.root)

  read_proof-Shaped :
      (depth leaf_idx : ℕ) (t : MerkleTree S)
      → IfOk (Shaped depth leaf_idx t) (read_proof depth leaf_idx t)
  unfolding read_proof
  read_proof-Shaped depth leaf_idx t =
      let (levels, indices) = sibling_list depth 0 leaf_idx in
      let zeros = replicate depth zero_node in
      IfOk-bind (IfOk-itself (st.get t.store (levels ++ 0 ∷ []) (indices ++ leaf_idx ∷ [])))
        λ fetched _.
          IfOk-bind
            (fill_proof-length depth t.zeros 0 depth (take depth fetched) zeros
              (length-replicate depth zero_node))
            λ proof size. IfOk-bind (IfOk-itself (zeros_index depth t.zeros 0)) λ zero _.
              IfOk-bind (IfOk-itself (root depth t)) λ node at_root. if_ok (size, refl, at_root)

  -- Over any store, in any state of the tree: a proof that `proof` makes has `DEPTH` siblings, is
  -- for the index that was asked for, and carries what `root` returns.
  pub proof-Shaped :
      (depth leaf_idx : ℕ) (t : MerkleTree S) (p : MerkleProof)
      → proof depth leaf_idx t ≡ ok p
      → (length p.proof ≡ depth) × (p.index ≡ leaf_idx) × (root depth t ≡ ok p.root)
  unfolding proof
  proof-Shaped depth leaf_idx t p made = elim (Bool-cases (ltb (bit64 depth) leaf_idx)) [
    | inl past ↦ absurd (cc (rw past at made))
    | inr inside ↦
        let this : read_proof depth leaf_idx t ≡ ok p = rw inside at made in
        IfOk-inv (rw this at (read_proof-Shaped depth leaf_idx t))
  ]
