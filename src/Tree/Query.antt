-- ===== src/Tree/Query.antt =====
-- src/tree.rs: `root`, `proof`, `verify_proof` and `num_leaves`.
pub mod Path
pub mod Root
pub mod Read
pub mod Verify
pub mod Bound
pub mod Agree
pub mod Size
use rs_merkle_tree.Base.{
  ℕ, zero, suc, ◌+◌, ◌-◌, ◌/◌, Bool, List, [], ◌∷◌, ◌++◌, Option, none, some, ltb, ◌==◌, length,
  take, replicate, if◌then◌else◌, bit_and, bit_xor,
}
use rs_merkle_tree.Run.{
  Run, ok, err, ◌>>=◌, store_error, empty_root_fetch, leaf_index_out_of_bounds, unwrap_or, assign,
}
use rs_merkle_tree.Node.{Node, zero_node, node_eq}
use rs_merkle_tree.Hasher.{Hasher}
use rs_merkle_tree.Store.{Store}
use rs_merkle_tree.Tree.{MerkleTree, MerkleProof, Zeros, zeros_index, bit64, as_u32}

-- `.into_iter().next().ok_or_else(…)?`
unfoldable pub first_fetched : List (Option Node) → Run (Option Node)
first_fetched [] = err (store_error empty_root_fetch)
first_fetched (node ∷ _) = ok node

-- The levels and indices of the siblings on the way up from `idx`.
unfoldable pub sibling_list : ℕ → ℕ → ℕ → List ℕ × List ℕ
sibling_list zero level idx = ([], [])
sibling_list (suc rounds) level idx =
    let (levels, indices) = sibling_list rounds (suc level) (idx / 2) in
    (as_u32 level ∷ levels, bit_xor idx 1 ∷ indices)

-- `for (d, opt) in fetched.iter().take(DEPTH).enumerate() { proof[d] = opt.unwrap_or(zeros[d]) }`
unfoldable pub fill_proof : ℕ → Zeros → ℕ → List (Option Node) → List Node → Run (List Node)
fill_proof depth zeros d [] proof = ok proof
fill_proof depth zeros d (opt ∷ fetched) proof = do
  zero_at ← zeros_index depth zeros d
  proof' ← assign proof d (unwrap_or opt zero_at)
  fill_proof depth zeros (suc d) fetched proof'

-- `fetched.last().copied().flatten()`
unfoldable pub last_fetched : List (Option Node) → Option Node
last_fetched [] = none
last_fetched (opt ∷ []) = opt
last_fetched (_ ∷ opt ∷ fetched) = last_fetched (opt ∷ fetched)

-- The loop of `verify_proof`, from the sibling at level `j` on.
unfoldable pub climb : Hasher → ℕ → ℕ → Node → List Node → Node
climb hasher index j computed [] = computed
climb hasher index j computed (sibling ∷ siblings) =
    climb hasher index (suc j)
      (if bit_and index (bit64 j) == 0
        then hasher.hash computed sibling
        else hasher.hash sibling computed)
      siblings

module _ {S : Type 0} ⦃st : Store S⦄ where
  unfoldable pub root : ℕ → MerkleTree S → Run Node
  unfolding first_fetched
  root depth t = do
    fetched ← st.get t.store (as_u32 depth ∷ []) (0 ∷ [])
    node ← first_fetched fetched
    zero_at ← zeros_index depth t.zeros depth
    ok (unwrap_or node zero_at)

  unfoldable pub read_proof : ℕ → ℕ → MerkleTree S → Run MerkleProof
  unfolding sibling_list fill_proof last_fetched
  read_proof depth leaf_idx t = do
    let (levels, indices) = sibling_list depth 0 leaf_idx
    fetched ← st.get t.store (levels ++ 0 ∷ []) (indices ++ leaf_idx ∷ [])
    proof ← fill_proof depth t.zeros 0 (take depth fetched) (replicate depth zero_node)
    zero_at ← zeros_index depth t.zeros 0
    node ← root depth t
    ok (record {
      proof = proof;
      leaf = unwrap_or (last_fetched fetched) zero_at;
      index = leaf_idx;
      root = node;
    })

  unfoldable pub proof : ℕ → ℕ → MerkleTree S → Run MerkleProof
  unfolding read_proof
  proof depth leaf_idx t =
      if ltb (bit64 depth) leaf_idx
      then err (leaf_index_out_of_bounds leaf_idx (bit64 depth))
      else read_proof depth leaf_idx t

  unfoldable pub verify_proof : MerkleTree S → MerkleProof → Run Bool
  unfolding climb
  verify_proof t p = ok (node_eq (climb t.hasher p.index 0 p.leaf p.proof) p.root)

  unfoldable pub num_leaves : MerkleTree S → ℕ
  num_leaves t = st.get_num_leaves t.store
