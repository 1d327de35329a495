-- ===== src/Checks/Pass.antt =====
-- The tests of src/tree.rs pass, with every lawful hasher, at every depth and for all leaves that
-- fit. The source's `chunks` panics at 0, so no batch size is 0.
use rs_merkle_tree.Node.{Node, IsNode, node_eq, node_eq_iff}
use rs_merkle_tree.Run.{Run, ok}
use rs_merkle_tree.Base.{
  ◌+◌, ap, map, arith, ◌==◌, flatten, ℕ, ◌^◌, ◌≤◌, ◌<◌, ◌≡◌, refl, true, List, [], ◌∷◌, length, All,
}
use rs_merkle_tree.Checks.{batching_matches_incremental, for_each, root_matches_full_recomputation}
use rs_merkle_tree.Checks.Filled.{check_proofs_ok, empty, new_tree_ok, add_batches-Fills}
use rs_merkle_tree.Hasher.{Hasher, IsHasher}
use rs_merkle_tree.Hasher.Chunks.{chunks, flatten-chunks, All-chunks}
use rs_merkle_tree.Memory.{get_num_leaves, MemoryStore, memory_store}
use rs_merkle_tree.Memory.Laws.{memory_laws}
use rs_merkle_tree.Tree.{MerkleTree}
use rs_merkle_tree.Tree.Insert.Batches.{add_batches}
use rs_merkle_tree.Tree.Query.{num_leaves, root}
use rs_merkle_tree.Tree.Spec.{Represents, node_at}
use rs_merkle_tree.Tree.Spec.Reference.{reference_root-node_at}

pub for_each_ok :
    {A : Type 0} (xs : List A) (body : A → Run (Unit {0}))
    → All (λ x. body x ≡ ok tt) xs
    → for_each xs body ≡ ok tt
for_each_ok [] body each = refl
for_each_ok (x ∷ xs) body each = rw (each.0, for_each_ok xs body each.1)

pub All-imp :
    {A : Type 0} {P Q : A → Type 0} (xs : List A) → ((x : A) → P x → Q x) → All P xs → All Q xs
All-imp [] f each = tt
All-imp (x ∷ xs) f each = (f x each.0, All-imp xs f each.1)

pub node_eq-itself : (n : Node) → node_eq n n ≡ true
node_eq-itself n = (node_eq_iff n n).1 refl

flatten-singletons : {A : Type 0} (xs : List A) → flatten (map (λ x. x ∷ []) xs) ≡ xs
flatten-singletons [] = refl
flatten-singletons (x ∷ xs) = ap (◌∷◌ x) (flatten-singletons xs)

All-singletons :
    {A : Type 0} (P : A → Type 0) (xs : List A) → All P xs → All (All P) (map (λ x. x ∷ []) xs)
All-singletons P [] each = tt
All-singletons P (x ∷ xs) each = ((each.0, tt), All-singletons P xs each.1)

module _ (depth : ℕ) (positive : 0 < depth) (small : depth < 64) (hasher : Hasher)
    (is_hasher : IsHasher hasher) (leaves : List Node) (fits : length leaves ≤ 2 ^ depth)
    (are_nodes : All IsNode leaves) where
  abbrev Holds : MerkleTree MemoryStore → Type 0
  Holds u =
      Represents memory_laws depth u leaves
      × (root depth u ≡ ok (node_at hasher.hash leaves depth 0))

  chunks-Holds :
      (size : ℕ)
      → 0 < size
      → (u : MerkleTree MemoryStore) × (add_batches depth
            (chunks size leaves)
            (empty depth positive small hasher is_hasher)
          ≡ (u, ok tt))
        × Holds u
  chunks-Holds size some_size =
      let all_of = flatten-chunks size leaves some_size in
      let (u, added, r, at_root) =
        add_batches-Fills depth positive small hasher is_hasher (chunks size leaves)
          (rw all_of fits) (All-chunks IsNode size leaves are_nodes) in
      (u, added, (rw all_of at r, rw all_of at at_root))

  -- `test_root_matches_full_recomputation`: for leaves that fit, in batches of each of the sizes,
  -- the root is that of the bottom-up computation.
  root_matches_full_recomputation_ok :
      (sizes : List ℕ)
      → All (λ size. 0 < size) sizes
      → root_matches_full_recomputation depth hasher leaves sizes ≡ ok tt
  unfolding root_matches_full_recomputation
  root_matches_full_recomputation_ok sizes some_sizes =
      rw (reference_root-node_at hasher.hash depth leaves fits) (
        for_each_ok sizes _ (
          All-imp sizes
            (λ size some_size.
              let (u, added, (r, at_root)) = chunks-Holds size some_size in
              rw (
                new_tree_ok depth positive small hasher is_hasher,
                added,
                at_root,
                node_eq-itself (node_at hasher.hash leaves depth 0),
              ))
            some_sizes))

  one_by_one-Holds :
      (u : MerkleTree MemoryStore) × (add_batches depth
          (map (λ leaf. leaf ∷ []) leaves)
          (empty depth positive small hasher is_hasher)
        ≡ (u, ok tt))
      × Holds u
  one_by_one-Holds =
      let all_of = flatten-singletons leaves in
      let (u, added, r, at_root) =
        add_batches-Fills depth positive small hasher is_hasher (map (λ leaf. leaf ∷ []) leaves)
          (rw all_of fits) (All-singletons IsNode leaves are_nodes) in
      (u, added, (rw all_of at r, rw all_of at at_root))

  -- At a positive depth below 64 and with a lawful hasher, for any nodes that fit into the
  -- `2 ^ DEPTH` places and any positive batch sizes, `test_batching_matches_incremental` passes:
  -- the trees that get the leaves in batches of each size all are made, have the number of the
  -- leaves and the root of the tree that got them one by one, and a proof of each leaf that shows
  -- it and verifies.
  pub batching_matches_incremental_ok :
      (sizes : List ℕ)
      → All (λ size. 0 < size) sizes
      → batching_matches_incremental depth hasher leaves sizes ≡ ok tt
  unfolding batching_matches_incremental num_leaves
  batching_matches_incremental_ok sizes some_sizes =
      let (_, one_by_one, (_, reference)) = one_by_one-Holds in
      rw (new_tree_ok depth positive small hasher is_hasher, one_by_one, reference)
        (for_each_ok sizes _ (
          All-imp sizes
            (λ size some_size.
              let (u, added, (r, at_root)) = chunks-Holds size some_size in
              let count : (get_num_leaves u.store == length leaves) ≡ true =
                ground (arith, r.counted) in
              rw (
                added,
                count,
                at_root,
                node_eq-itself (node_at hasher.hash leaves depth 0),
                check_proofs_ok depth positive small hasher is_hasher u leaves r leaves 0
                    (λ j. let from_start : 0 + j ≡ j = omega arith in rw from_start),
              ))
            some_sizes))
