-- ===== src/Tree/Query/Path.antt =====
-- The authentication path of a leaf, and what climbing it computes.
use rs_merkle_tree.Base.Bits.{bit_and-pow, bit_xor-one, shift_suc, two-pow-pos}
use native.Mathlib.Decide.{ℕ_discrete}
use rs_merkle_tree.Base.{
  Bool, false, true, if◌then◌else◌, ℕ, zero, suc, ◌+◌, ◌*◌, ◌/◌, ◌%◌, ◌^◌, ◌≤◌, ◌<◌, ◌≡◌, List, [],
  ◌∷◌, length, arith, ap, ap₂, ◌∙◌, sym, refl, bit_and, bit_xor, ◌==◌,
}
use rs_merkle_tree.Node.{Node}
use rs_merkle_tree.Hasher.{Hasher}
use rs_merkle_tree.Tree.{bit64}
use rs_merkle_tree.Tree.Spec.{node_at}
use rs_merkle_tree.Tree.Query.{climb}

-- The siblings on the way up from index `i` of `level`.
abbrev pub path_from : (Node → Node → Node) → List Node → ℕ → ℕ → ℕ → List Node
path_from hash xs zero level i = []
path_from hash xs (suc rounds) level i =
    node_at hash xs level (bit_xor i 1) ∷ path_from hash xs rounds (suc level) (i / 2)

pub length-path_from :
    (hash : Node → Node → Node) (xs : List Node) (rounds level i : ℕ)
    → length (path_from hash xs rounds level i) ≡ rounds
length-path_from hash xs zero level i = refl
length-path_from hash xs (suc rounds) level i =
    ap suc (length-path_from hash xs rounds (suc level) (i / 2))

-- The test of `verify_proof` reads the digit of the index.
pub side_test : (index j : ℕ) → j < 64 → (bit_and index (bit64 j) == 0) ≡ (index / 2 ^ j % 2 == 0)
side_test index j h =
    let place : bit64 j ≡ 2 ^ j = ap (λ k. 2 ^ k) (omega arith) in
    rw place (ground (arith, bit_and-pow index j, two-pow-pos j))

-- One step up the path.
pub parent-step :
    (hash : Node → Node → Node) (xs : List Node) (level i : ℕ)
    → (if i % 2 == 0
        then hash (node_at hash xs level i) (node_at hash xs level (bit_xor i 1))
        else hash (node_at hash xs level (bit_xor i 1)) (node_at hash xs level i))
      ≡ node_at hash xs (suc level) (i / 2)
parent-step hash xs level i = elim (ℕ_discrete (i % 2) 0) [
  | yes even ↦
      let test : (i % 2 == 0) ≡ true = ground arith in
      let here : i ≡ i / 2 * 2 = omega arith in
      let right : bit_xor i 1 ≡ suc (i / 2 * 2) = omega (arith, bit_xor-one i) in
      rw test (ap₂ hash (ap (node_at hash xs level) here) (ap (node_at hash xs level) right))
  | no odd ↦
      let test : (i % 2 == 0) ≡ false = ground arith in
      let left : bit_xor i 1 ≡ i / 2 * 2 = omega (arith, bit_xor-one i) in
      let here : i ≡ suc (i / 2 * 2) = omega arith in
      rw test (ap₂ hash (ap (node_at hash xs level) left) (ap (node_at hash xs level) here))
]

-- Climbing the path of a node gives its ancestor.
pub climb-path_from :
    (hasher : Hasher) (xs : List Node) (index rounds level : ℕ)
    → level + rounds ≤ 64
    → climb hasher index level
        (node_at hasher.hash xs level (index / 2 ^ level))
        (path_from hasher.hash xs rounds level (index / 2 ^ level))
      ≡ node_at hasher.hash xs (level + rounds) (index / 2 ^ (level + rounds))
unfolding climb
climb-path_from hasher xs index zero level h = let e : level + 0 ≡ level = omega arith in rw e
climb-path_from hasher xs index (suc rounds) level h =
    let e : level + suc rounds ≡ suc level + rounds = omega arith in
    let hash = hasher.hash in
    let here = index / 2 ^ level in
    let node = node_at hash xs level here in
    let sibling = node_at hash xs level (bit_xor here 1) in
    let step =
      ap (λ (b : Bool). if b then hash node sibling else hash sibling node)
        (side_test index level (omega arith))
      ∙ parent-step hash xs level here in
    ap (λ c. climb hasher index (suc level) c (path_from hash xs rounds (suc level) (here / 2)))
      step
    ∙ ap
        (λ k.
          climb hasher index (suc level) (node_at hash xs (suc level) k)
            (path_from hash xs rounds (suc level) k))
        (sym (shift_suc index level))
    ∙ climb-path_from hasher xs index rounds (suc level) (omega arith)
    ∙ ap (λ k. node_at hash xs k (index / 2 ^ k)) (sym e)
