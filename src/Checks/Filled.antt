-- ===== src/Checks/Filled.antt =====
-- A new tree over a `MemoryStore` that was given some leaves, in any batches.
use rs_merkle_tree.Run.Method.{Returns-inv}
use rs_merkle_tree.Node.{Node, IsNode, node_eq_iff}
use rs_merkle_tree.Run.{ok}
use rs_merkle_tree.Base.{
  suc, ◌+◌, ℕ, ◌^◌, ◌≤◌, ◌<◌, ◌≡◌, refl, sym, ap, ◌∙◌, some, List, [], ◌∷◌, arith, length,
  get_elem?, flatten, All,
}
use rs_merkle_tree.Checks.{new_tree, check_proof, check_proofs}
use rs_merkle_tree.Hasher.{Hasher, IsHasher}
use rs_merkle_tree.Memory
use rs_merkle_tree.Memory.{MemoryStore, memory_store}
use rs_merkle_tree.Memory.Laws.{memory_laws, look-new, num_leaves-new}
use rs_merkle_tree.Tree.{MerkleTree}
use rs_merkle_tree.Tree.Create.{made, made-Represents, new-made}
use rs_merkle_tree.Tree.Insert.Batches.{add_batches, add_batches-Represents}
use rs_merkle_tree.Tree.Query.{root}
use rs_merkle_tree.Tree.Query.Root.{root-node_at}
use rs_merkle_tree.Tree.Reach.{Represents-Shows}
use rs_merkle_tree.Tree.Spec.{Represents, node_at}
use rs_merkle_tree.Tree.Spec.Facts.{stored-nil}
use native.Mathlib.Nat.{pow-le-pow_right}

module _ (depth : ℕ) (positive : 0 < depth) (small : depth < 64) (hasher : Hasher)
    (is_hasher : IsHasher hasher) where
  abbrev pub empty : MerkleTree MemoryStore
  empty = made depth hasher Memory.new

  pub new_tree_ok : new_tree depth hasher ≡ ok empty
  new_tree_ok = new-made memory_laws depth positive hasher is_hasher Memory.new []

  pub empty-Represents : Represents memory_laws depth empty []
  empty-Represents =
      let bound : 2 ^ depth ≤ 2 ^ 63 =
        pow-le-pow_right {n = 2} (omega arith) {j = 63} (omega arith) in
      made-Represents memory_laws depth positive hasher is_hasher Memory.new [] (record {
        valid = tt;
        holds = λ l i _. look-new l i ∙ sym (stored-nil hasher.hash l i);
        counted = num_leaves-new;
        fits = omega arith;
        roomy = omega (arith, bound);
        are_nodes = tt;
      })

  -- The tree after the batches: it is there, and holds their leaves.
  abbrev pub Fills : List (List Node) → Type 0
  Fills batches =
      (u : MerkleTree MemoryStore) × (add_batches depth batches empty ≡ (u, ok tt))
      × Represents memory_laws depth u (flatten batches)
      × (root depth u ≡ ok (node_at hasher.hash (flatten batches) depth 0))

  pub add_batches-Fills :
      (batches : List (List Node))
      → length (flatten batches) ≤ 2 ^ depth
      → All (All IsNode) batches
      → Fills batches
  add_batches-Fills batches fits are_nodes =
      let (u, _, added, (r, same)) = Returns-inv (
        add_batches-Represents memory_laws depth small (λ never. never) batches empty []
          empty-Represents (omega arith) are_nodes) in
      (
        u,
        added,
        r,
        root-node_at memory_laws depth small u (flatten batches) r
            ∙ ap (λ (h : Hasher). ok (node_at h.hash (flatten batches) depth 0)) same,
      )

  module _ (u : MerkleTree MemoryStore) (xs : List Node)
      (r : Represents memory_laws depth u xs) where
    pub check_proof_ok :
        (i : ℕ) (leaf : Node) → get_elem? xs i ≡ some leaf → check_proof depth u i leaf ≡ ok tt
    check_proof_ok i leaf found =
        let (p, proved, shown, accepted) =
          Represents-Shows memory_laws depth small (λ never. never) u xs r i leaf found in
        rw (proved, (node_eq_iff p.leaf leaf).1 shown, accepted)

    -- The leaves from the index `i` on.
    pub check_proofs_ok :
        (leaves : List Node) (i : ℕ)
        → ((j : ℕ) → get_elem? xs (i + j) ≡ get_elem? leaves j)
        → check_proofs depth u i leaves ≡ ok tt
    check_proofs_ok [] i at_leaves = refl
    check_proofs_ok (leaf ∷ leaves) i at_leaves =
        let here : i + 0 ≡ i = omega arith in
        rw (
          check_proof_ok i leaf (rw here at (at_leaves 0)),
          check_proofs_ok leaves (suc i)
              (λ j. let next : suc i + j ≡ i + suc j = omega arith in rw next (at_leaves (suc j))),
        )
