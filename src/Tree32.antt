-- ===== src/Tree32.antt =====
-- src/tree.rs: `MerkleTree32`, the tree of depth 32 with `Keccak256Hasher` over a `MemoryStore`,
-- and what it does from its default on.
use rs_merkle_tree.Node.{Node, IsNode}
use rs_merkle_tree.Run.{Run, ok}
use rs_merkle_tree.Base.{
  ap, ℕ, ◌^◌, ◌≤◌, ◌<◌, ◌≡◌, sym, ◌∙◌, true, List, [], map, arith, length, All,
}
use rs_merkle_tree.Tree
use rs_merkle_tree.Tree.{MerkleTree}
use rs_merkle_tree.Memory
use rs_merkle_tree.Memory.{MemoryStore, memory_store}
use rs_merkle_tree.Memory.Laws.{memory_laws, look-new, num_leaves-new}
use rs_merkle_tree.Hasher.{Hasher, IsHasher}
use rs_merkle_tree.Hasher.Keccak.{keccak_hasher, keccak_hasher-IsHasher}
use rs_merkle_tree.Tree.Create.{made, made-Represents, new-made}
use rs_merkle_tree.Tree.Spec.{Represents}
use rs_merkle_tree.Tree.Spec.Facts.{stored-nil}
use rs_merkle_tree.Tree.Spec.Reference.{reference_root}
use rs_merkle_tree.Tree.Insert.{add_leaves}
use rs_merkle_tree.Tree.Insert.Correct.{add_leaves-Represents}
use rs_merkle_tree.Tree.Query.{root, proof, verify_proof, num_leaves}
use rs_merkle_tree.Tree.Query.Root.{root-reference_root}
use rs_merkle_tree.Tree.Query.Verify.{verify_proof-proof}
use native.Mathlib.Nat.{pow-le-pow_right}
use rs_merkle_tree.Run.{◌>>=◌}
use rs_merkle_tree.Run.Method.{Returns-inv}

-- What a tree answers that was made and then given the leaves `xs`; `i` is asked for a proof.
abbrev pub Answers : ℕ → Hasher → Run (MerkleTree MemoryStore) → List Node → ℕ → Type 0
Answers depth hasher made xs i =
    (t : MerkleTree MemoryStore) × (u : MerkleTree MemoryStore) × (made ≡ ok t)
    × (add_leaves depth xs t ≡ (u, ok tt))
    × (num_leaves u ≡ length xs)
    × (root depth u ≡ reference_root hasher.hash depth xs)
    × ((proof depth i u >>= verify_proof u) ≡ ok true)

new-Answers :
    (depth : ℕ) (hasher : Hasher) (xs : List Node) (i : ℕ)
    → 0 < depth
    → depth < 64
    → IsHasher hasher
    → All IsNode xs
    → length xs ≤ 2 ^ depth
    → i < 2 ^ depth
    → Answers depth hasher (Tree.new depth hasher Memory.new) xs i
unfolding num_leaves
new-Answers depth hasher xs i positive small is_hasher are_nodes fits inside =
    let t = made depth hasher Memory.new in
    let bound : 2 ^ depth ≤ 2 ^ 63 =
      pow-le-pow_right {n = 2} (omega arith) {j = 63} (omega arith) in
    let r : Represents memory_laws depth t [] =
      made-Represents memory_laws depth positive hasher is_hasher Memory.new [] (record {
        valid = tt;
        holds = λ l i _. look-new l i ∙ sym (stored-nil hasher.hash l i);
        counted = num_leaves-new;
        fits = omega arith;
        roomy = omega (arith, bound);
        are_nodes = tt;
      }) in
    let (u, _, added, (r', same)) = Returns-inv (
      add_leaves-Represents memory_laws depth small t [] r xs (λ never. never) (omega arith)
        are_nodes) in
    (
      t,
      u,
      new-made memory_laws depth positive hasher is_hasher Memory.new [],
      added,
      r'.counted,
      root-reference_root memory_laws depth small u xs r'
          ∙ ap (λ (h : Hasher). reference_root h.hash depth xs) same,
      verify_proof-proof memory_laws depth small u xs r' i inside,
    )

module _ (keccak256 : List ℕ → List ℕ)
    (keccak256_many_into : List (List ℕ) → List (List ℕ) → List (List ℕ)) where
  -- `MerkleTree32::default`
  unfoldable pub default : Run (MerkleTree MemoryStore)
  default = Tree.new 32 (keccak_hasher keccak256 keccak256_many_into) Memory.new

  module _
      (many_ok : (messages out : List (List ℕ))
        → length messages ≡ length out
        → keccak256_many_into messages out ≡ map keccak256 messages)
      (digests : (message : List ℕ) → IsNode (record { bytes = keccak256 message })) where
    -- Where keccak256 gives 32 bytes and `keccak256_many_into` hashes each message as it does: the
    -- default tree is made, it takes any list of at most `2 ^ 32` nodes, and then has their number,
    -- the root of the bottom-up computation of the tests, and for every index below `2 ^ 32` a
    -- proof that it accepts.
    pub default-Answers :
        (xs : List Node) (i : ℕ)
        → All IsNode xs
        → length xs ≤ 2 ^ 32
        → i < 2 ^ 32
        → Answers 32 (keccak_hasher keccak256 keccak256_many_into) default xs i
    unfolding default
    default-Answers xs i are_nodes fits inside =
        new-Answers 32 (keccak_hasher keccak256 keccak256_many_into) xs i (omega arith)
          (omega arith) (keccak_hasher-IsHasher keccak256 keccak256_many_into many_ok digests)
          are_nodes fits inside
