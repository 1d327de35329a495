-- ===== src/Tree/Spec.antt =====
-- What the tree stands for: the nodes of the full tree of a given list of leaves, padded with
-- zeros, by recursion on the level and with no stored state.
pub mod Facts
pub mod Reference
use rs_merkle_tree.Base.{
  ℕ, zero, suc, ◌+◌, ◌*◌, ◌/◌, ◌≤◌, ◌<◌, ◌^◌, ◌≡◌, List, [], ◌∷◌, ◌++◌, Option, none, some, ltb,
  length, get_elem?, tabulate, if◌then◌else◌, All,
}
use rs_merkle_tree.Run.{Run, ok, panic, ◌>>=◌, unwrap_or}
use rs_merkle_tree.Node.{Node, zero_node, IsNode}
use rs_merkle_tree.Hasher.{Hasher, IsHasher}
use rs_merkle_tree.Store.{Store, StoreLaws}
use rs_merkle_tree.Tree.{MerkleTree}

module _ (hash : Node → Node → Node) where
  -- The root of an empty subtree of height `l`.
  abbrev pub zero_at : ℕ → Node
  zero_at zero = zero_node
  zero_at (suc l) = hash (zero_at l) (zero_at l)

  -- The node at index `i` of level `l`.
  abbrev pub node_at : List Node → ℕ → ℕ → Node
  node_at xs zero i = unwrap_or (get_elem? xs i) zero_node
  node_at xs (suc l) i = hash (node_at xs l (i * 2)) (node_at xs l (suc (i * 2)))

-- How many nodes of level `l` have a leaf below them, and how many have leaves only.
abbrev pub width : ℕ → ℕ → ℕ
width zero n = n
width (suc l) n = (width l n + 1) / 2

abbrev pub full : ℕ → ℕ → ℕ
full zero n = n
full (suc l) n = full l n / 2

-- What the store holds: the nodes that have a leaf below them.
abbrev pub stored : (Node → Node → Node) → List Node → ℕ → ℕ → Option Node
stored hash xs l i = if ltb i (width l (length xs)) then some (node_at hash xs l i) else none

-- The cached zeros are the roots of the empty subtrees.
pub record IsTree {S : Type 0} (depth : ℕ) (t : MerkleTree S) : Type 0 where
  pub is_hasher : IsHasher t.hasher
  pub front : t.zeros.front ≡ tabulate (zero_at t.hasher.hash) 0 depth
  pub last : t.zeros.last ≡ zero_at t.hasher.hash depth

-- The tree holds exactly the leaves `xs`, and every ancestor of a leaf.
pub record Represents {S : Type 0} {st : Store S} (laws : StoreLaws st) (depth : ℕ)
    (t : MerkleTree S) (xs : List Node) : Type 0 where
  pub is_tree : IsTree depth t
  pub valid : laws.IsValid t.store
  pub holds : (l i : ℕ) → l ≤ depth → laws.look t.store l i ≡ stored t.hasher.hash xs l i
  pub counted : st.get_num_leaves t.store ≡ length xs
  pub fits : length xs ≤ 2 ^ depth
  pub roomy : 2 ^ depth ≤ laws.capacity
  pub are_nodes : All IsNode xs
