-- ===== src/Checks.antt =====
-- The tests of src/tree.rs, each as a function of the hasher, the depth and the leaves, which the
-- source fixes. A test passes when it gives `ok`: an assertion or an `unwrap` that fails is a
-- panic.
pub mod Vectors
pub mod OnZeros
pub mod OnNodes
pub mod Filled
pub mod Pass
pub mod Calls
pub mod Stores
pub mod OnFiles
pub mod OnMemory
pub mod OnHashers
use rs_merkle_tree.Node.{Node, zero_node, node_eq}
use rs_merkle_tree.Run.{◌>>=◌, ◌>>◌, Run, ok, err, panic, check, index, slice_to, slice_from}
use rs_merkle_tree.Base.{
  ℕ, suc, ◌^◌, Bool, true, false, List, [], ◌∷◌, map, ◌==◌, length, replicate,
}
use rs_merkle_tree.Hasher.{Hasher}
use rs_merkle_tree.Hasher.Chunks.{chunks}
use rs_merkle_tree.Memory
use rs_merkle_tree.Memory.{MemoryStore, memory_store}
use rs_merkle_tree.Tree
use rs_merkle_tree.Tree.{MerkleTree}
use rs_merkle_tree.Tree.Insert.{add_leaves}
use rs_merkle_tree.Tree.Insert.Batches.{add_batches}
use rs_merkle_tree.Tree.Query.{root, proof, verify_proof, num_leaves}
use rs_merkle_tree.Tree.Spec.Reference.{reference_root}

-- `.unwrap()` of a value, and of a method: the object after it.
abbrev pub unwrap : {A : Type 0} → Run A → Run A
unwrap (ok a) = ok a
unwrap _ = panic

abbrev pub after : {S A : Type 0} → S × Run A → Run S
after (s, ok a) = ok s
after (s, _) = panic

abbrev pub is_err : {A : Type 0} → Run A → Bool
is_err (err e) = true
is_err _ = false

-- `for x in xs { … }`
abbrev pub for_each : {A : Type 0} → List A → (A → Run (Unit {0})) → Run (Unit {0})
for_each [] body = ok tt
for_each (x ∷ xs) body = body x >> for_each xs body

-- `Tree::new(Keccak256Hasher, MemoryStore::default())`
abbrev pub new_tree : ℕ → Hasher → Run (MerkleTree MemoryStore)
new_tree depth hasher = Tree.new depth hasher Memory.new

-- The proof of one index is made, shows the leaf, and verifies.
abbrev pub check_proof : ℕ → MerkleTree MemoryStore → ℕ → Node → Run (Unit {0})
check_proof depth t i leaf = do
  p ← unwrap (proof depth i t)
  check (node_eq p.leaf leaf)
  verified ← unwrap (verify_proof t p)
  check verified

-- `for (i, leaf) in leaves.iter().enumerate()`, from the index `i` on.
abbrev pub check_proofs : ℕ → MerkleTree MemoryStore → ℕ → List Node → Run (Unit {0})
check_proofs depth t i [] = ok tt
check_proofs depth t i (leaf ∷ leaves) =
    check_proof depth t i leaf >> check_proofs depth t (suc i) leaves

-- The body of the loop over the numbers of leaves of `test_root_matches_full_recomputation`.
unfoldable pub root_matches_full_recomputation : ℕ → Hasher → List Node → List ℕ → Run (Unit {0})
root_matches_full_recomputation depth hasher leaves sizes = do
  expected ← reference_root hasher.hash depth leaves
  for_each sizes λ size. do
    t ← new_tree depth hasher
    t ← after (add_batches depth (chunks size leaves) t)
    node ← unwrap (root depth t)
    check (node_eq node expected)

-- `test_parallel_batch_after_odd_prefix`
unfoldable pub parallel_batch_after_odd_prefix : ℕ → Hasher → List Node → List ℕ → Run (Unit {0})
parallel_batch_after_odd_prefix depth hasher leaves indices = do
  expected ← reference_root hasher.hash depth leaves
  t ← new_tree depth hasher
  first ← slice_to leaves 1
  t ← after (add_leaves depth first t)
  rest ← slice_from leaves 1
  t ← after (add_leaves depth rest t)
  node ← unwrap (root depth t)
  check (node_eq node expected)
  for_each indices λ i. do
    p ← unwrap (proof depth i t)
    leaf ← index leaves i
    check (node_eq p.leaf leaf)
    verified ← unwrap (verify_proof t p)
    check verified

-- `test_batching_matches_incremental`
unfoldable pub batching_matches_incremental : ℕ → Hasher → List Node → List ℕ → Run (Unit {0})
batching_matches_incremental depth hasher leaves sizes = do
  reference ← new_tree depth hasher
  reference ← after (add_batches depth (map (λ leaf. leaf ∷ []) leaves) reference)
  expected ← unwrap (root depth reference)
  for_each sizes λ size. do
    t ← new_tree depth hasher
    t ← after (add_batches depth (chunks size leaves) t)
    check (num_leaves t == length leaves)
    node ← unwrap (root depth t)
    check (node_eq node expected)
    check_proofs depth t 0 leaves

-- `test_tree_full_error`
unfoldable pub tree_full_error : ℕ → Hasher → Run (Unit {0})
tree_full_error depth hasher = do
  t ← new_tree depth hasher
  t ← after (add_leaves depth (replicate (2 ^ depth) zero_node) t)
  check (is_err (add_leaves depth (zero_node ∷ []) t).1)
