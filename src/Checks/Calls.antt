-- ===== src/Checks/Calls.antt =====
-- The tests of src/tree.rs that call `add_leaves` twice pass.
use rs_merkle_tree.Run.Method.{Returns-inv}
use rs_merkle_tree.Node.{zero_node, node_eq, node_eq_iff, zero_node-IsNode, Node, IsNode}
use rs_merkle_tree.Run.{check, index, ◌>>=◌, ◌>>◌, ok}
use rs_merkle_tree.Base.{
  zero, replicate, length-replicate, get_elem?-lt, ℕ, suc, ◌+◌, ◌^◌, ◌≤◌, ◌<◌, ◌≡◌, refl, ap, ◌∙◌,
  false, List, [], ◌∷◌, ◌++◌, arith, ltb, le→ltb, length, All,
}
use rs_merkle_tree.Checks.{unwrap, parallel_batch_after_odd_prefix, tree_full_error}
use rs_merkle_tree.Checks.Filled.{empty, empty-Represents, new_tree_ok}
use rs_merkle_tree.Checks.Pass.{for_each_ok, All-imp, node_eq-itself}
use rs_merkle_tree.Hasher.{Hasher, IsHasher}
use rs_merkle_tree.Memory.{MemoryStore, memory_store}
use rs_merkle_tree.Memory.Laws.{memory_laws}
use rs_merkle_tree.Tree.{MerkleTree}
use rs_merkle_tree.Tree.Insert.{add_leaves}
use rs_merkle_tree.Tree.Insert.Correct.{add_leaves-Represents, add_leaves-tree_full}
use rs_merkle_tree.Tree.Query.{proof, verify_proof, root}
use rs_merkle_tree.Tree.Query.Root.{root-node_at}
use rs_merkle_tree.Tree.Reach.{Represents-Shows}
use rs_merkle_tree.Tree.Spec.{Represents, node_at}
use rs_merkle_tree.Tree.Spec.Reference.{reference_root-node_at}

zeros-IsNode : (n : ℕ) → All IsNode (replicate n zero_node)
zeros-IsNode zero = tt
zeros-IsNode (suc n) = (zero_node-IsNode, zeros-IsNode n)

module _ (depth : ℕ) (positive : 0 < depth) (small : depth < 64) (hasher : Hasher)
    (is_hasher : IsHasher hasher) where
  -- A tree with the hasher, that holds leaves.
  abbrev Has : List Node → MerkleTree MemoryStore → Type 0
  Has xs t = Represents memory_laws depth t xs × (t.hasher ≡ hasher)

  add_leaves-Has :
      (t : MerkleTree MemoryStore) (xs leaves : List Node)
      → Has xs t
      → length xs + length leaves ≤ 2 ^ depth
      → All IsNode leaves
      → (u : MerkleTree MemoryStore) × (add_leaves depth leaves t ≡ (u, ok tt))
        × Has (xs ++ leaves) u
  add_leaves-Has t xs leaves (r, same) fits are_nodes =
      let (u, _, added, (r', same')) = Returns-inv (
        add_leaves-Represents memory_laws depth small t xs r leaves (λ never. never) fits
          are_nodes) in
      (u, added, (r', same' ∙ same))

  -- The body of the loop over the indices.
  indexed_proof_ok :
      (u : MerkleTree MemoryStore) (leaves : List Node)
      → Represents memory_laws depth u leaves
      → (i : ℕ) → i < length leaves
      → (do
        p ← unwrap (proof depth i u)
        leaf ← index leaves i
        check (node_eq p.leaf leaf)
        verified ← unwrap (verify_proof u p)
        check verified)
        ≡ ok tt
  indexed_proof_ok u leaves r i below =
      let (leaf, found) = get_elem?-lt leaves i below in
      let (p, proved, shown, accepted) =
        Represents-Shows memory_laws depth small (λ never. never) u leaves r i leaf found in
      rw (proved, found, (node_eq_iff p.leaf leaf).1 shown, accepted)

  -- At a positive depth below 64 and with a lawful hasher, for any nodes that fit, at least one,
  -- and indices of theirs, `test_parallel_batch_after_odd_prefix` passes.
  pub parallel_batch_after_odd_prefix_ok :
      (leaves : List Node) (indices : List ℕ)
      → 0 < length leaves
      → length leaves ≤ 2 ^ depth
      → All IsNode leaves
      → All (λ i. i < length leaves) indices
      → parallel_batch_after_odd_prefix depth hasher leaves indices ≡ ok tt
  unfolding parallel_batch_after_odd_prefix
  parallel_batch_after_odd_prefix_ok [] indices some_leaf fits are_nodes inside =
      absurd (omega arith)
  parallel_batch_after_odd_prefix_ok (leaf ∷ rest) indices some_leaf fits are_nodes inside =
      let leaves = leaf ∷ rest in
      let long : ltb (suc (length rest)) 1 ≡ false = le→ltb _ _ (omega arith) in
      let (t, first, has) =
        add_leaves-Has (empty depth positive small hasher is_hasher) [] (leaf ∷ [])
          (empty-Represents depth positive small hasher is_hasher, refl) (omega (arith, fits))
          (are_nodes.0, tt) in
      let (u, second, (r, same)) =
        add_leaves-Has t (leaf ∷ []) rest has (omega (arith, fits)) are_nodes.1 in
      let at_root : root depth u ≡ ok (node_at hasher.hash leaves depth 0) =
        root-node_at memory_laws depth small u leaves r
        ∙ ap (λ (h : Hasher). ok (node_at h.hash leaves depth 0)) same in
      rw
        (
          reference_root-node_at hasher.hash depth leaves fits,
          new_tree_ok depth positive small hasher is_hasher,
          long,
          first,
          second,
          at_root,
          node_eq-itself (node_at hasher.hash leaves depth 0),
        )
        (for_each_ok indices _
          (All-imp indices (λ i below. indexed_proof_ok u leaves r i below) inside))

  -- At a positive depth below 64 and with a lawful hasher, `test_tree_full_error` passes.
  pub tree_full_error_ok : tree_full_error depth hasher ≡ ok tt
  unfolding tree_full_error
  tree_full_error_ok =
      let zeros = replicate (2 ^ depth) zero_node in
      let size : length zeros ≡ 2 ^ depth = length-replicate (2 ^ depth) zero_node in
      let (t, filled, (r, _)) =
        add_leaves-Has (empty depth positive small hasher is_hasher) [] zeros
          (empty-Represents depth positive small hasher is_hasher, refl) (omega (arith, size))
          (zeros-IsNode (2 ^ depth)) in
      let full =
        add_leaves-tree_full memory_laws depth small t zeros r (zero_node ∷ [])
          (omega (arith, size)) (omega arith) (omega arith) in
      rw (new_tree_ok depth positive small hasher is_hasher, filled, full)
