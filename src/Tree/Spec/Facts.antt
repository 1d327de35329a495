-- ===== src/Tree/Spec/Facts.antt =====
-- Facts about the padded tree.
use rs_merkle_tree.Base.Bits.{shift_suc}
use native.Mathlib.Nat.{div-one}
use rs_merkle_tree.Base.{
  lt→ltb, get_elem?-append, get_elem?-le, ℕ, zero, suc, ◌*◌, ◌/◌, ◌≤◌, ◌<◌, ◌^◌, ◌≡◌, List, [], ◌∷◌,
  ◌++◌, none, length, All, arith, ap, ap₂, ◌∙◌, sym, refl,
}
use rs_merkle_tree.Run.{unwrap_or}
use rs_merkle_tree.Node.{Node, IsNode, zero_node-IsNode}
use rs_merkle_tree.Tree.Spec.{zero_at, node_at, width, full, stored}

pub full-shift : (l n : ℕ) → full l n ≡ n / 2 ^ l
full-shift zero n = sym (div-one n)
full-shift (suc l) n = ap (λ k. k / 2) (full-shift l n) ∙ sym (shift_suc n l)

pub full-le-width : (l n : ℕ) → full l n ≤ width l n
full-le-width zero n = omega arith
full-le-width (suc l) n = omega (arith, full-le-width l n)

pub width-pos : (l n : ℕ) → 0 < n → 0 < width l n
width-pos zero n h = h
width-pos (suc l) n h = omega (arith, width-pos l n h)

pub width_mono : (l n m : ℕ) → n ≤ m → width l n ≤ width l m
width_mono zero n m h = h
width_mono (suc l) n m h = omega (arith, width_mono l n m h)

pub width_zero : (l : ℕ) → width l 0 ≡ 0
width_zero zero = refl
width_zero (suc l) = omega (arith, width_zero l)

module _ (hash : Node → Node → Node) where
  -- A node with no leaf below it is the zero of its level.
  pub node_at_beyond :
      (xs : List Node) (l i : ℕ) → width l (length xs) ≤ i → node_at hash xs l i ≡ zero_at hash l
  node_at_beyond xs zero i h = rw (get_elem?-le xs i h)
  node_at_beyond xs (suc l) i h =
      ap₂ hash (node_at_beyond xs l (i * 2) (omega arith))
        (node_at_beyond xs l (suc (i * 2)) (omega arith))

  -- A node whose leaves are all there does not change when leaves are appended.
  pub node_at_prefix :
      (xs ys : List Node) (l i : ℕ)
      → i < full l (length xs)
      → node_at hash (xs ++ ys) l i ≡ node_at hash xs l i
  node_at_prefix xs ys zero i h = rw (get_elem?-append xs ys i, lt→ltb i (length xs) h)
  node_at_prefix xs ys (suc l) i h =
      ap₂ hash (node_at_prefix xs ys l (i * 2) (omega arith))
        (node_at_prefix xs ys l (suc (i * 2)) (omega arith))

  -- Reading a position with the level's zero for what is absent gives the node.
  pub unwrap-stored :
      (xs : List Node) (l i : ℕ)
      → unwrap_or (stored hash xs l i) (zero_at hash l) ≡ node_at hash xs l i
  unwrap-stored xs l i = ground (arith, node_at_beyond xs l i)

  module _ (are_hashes : (a b : Node) → IsNode (hash a b)) where
    leaf-IsNode : (xs : List Node) (i : ℕ) → All IsNode xs → IsNode (node_at hash xs 0 i)
    leaf-IsNode [] i h = zero_node-IsNode
    leaf-IsNode (x ∷ xs) zero h = h.0
    leaf-IsNode (x ∷ xs) (suc i) h = leaf-IsNode xs i h.1

    pub node_at-IsNode : (xs : List Node) (l i : ℕ) → All IsNode xs → IsNode (node_at hash xs l i)
    node_at-IsNode xs zero i h = leaf-IsNode xs i h
    node_at-IsNode xs (suc l) i h = are_hashes _ _

-- A tree with no leaves stores nothing.
pub stored-nil : (hash : Node → Node → Node) (l i : ℕ) → stored hash [] l i ≡ none
stored-nil hash l i = ground (arith, width_zero l)
