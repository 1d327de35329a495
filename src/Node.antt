-- ===== src/Node.antt =====
-- src/node.rs: a node is 32 bytes.
pub mod Hex
pub mod Random
use mathlib.Core.Bool.{false≢true}
use rs_merkle_tree.Base.{
  ◌++◌, list_eq, list_eq_iff, sym, inr, inl, Bool-cases, ◌⊎◌, ◌≢◌, ◌∙◌, ℕ, ◌<◌, ◌≡◌, ◌↔◌, Bool,
  true, false, ◌&&◌, List, [], ◌∷◌, arith, ◌==◌, length, replicate, All,
}

pub record Node : Type 0 where
  pub bytes : List ℕ

-- `Node::LEN`
abbrev pub len : ℕ
len = 32

-- `Node::ZERO`
abbrev pub zero_node : Node
zero_node = record { bytes = replicate len 0 }

-- What the type `[u8; Node::LEN]` says of the bytes.
abbrev pub IsNode : Node → Type 0
IsNode n = (length n.bytes ≡ len) × All (λ b. b < 256) n.bytes

-- `Node::as_bytes`: the bytes of a run of nodes, one node behind the other.
unfoldable pub as_bytes : List Node → List ℕ
as_bytes [] = []
as_bytes (n ∷ nodes) = n.bytes ++ as_bytes nodes

-- The derived `PartialEq`.
unfoldable pub node_eq : Node → Node → Bool
node_eq m n = list_eq m.bytes n.bytes

pub node_eq_iff : (m n : Node) → (node_eq m n ≡ true) ↔ (m ≡ n)
unfolding node_eq
node_eq_iff m n = ground (arith, list_eq_iff m.bytes n.bytes)

pub zero_node-IsNode : IsNode zero_node
zero_node-IsNode = omega arith

pub Node-cases : (m n : Node) → (m ≡ n) ⊎ (m ≢ n)
Node-cases m n = elim (Bool-cases (node_eq m n)) [
  | inl same ↦ inl ((node_eq_iff m n).0 same)
  | inr other ↦ inr (λ e. false≢true (sym other ∙ (node_eq_iff m n).1 e))
]
