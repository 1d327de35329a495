-- ===== src/Tree/Query/Bound.antt =====
-- The index `2 ^ DEPTH`, one past the last place of the tree, which `proof` lets through.
use native.Mathlib.Nat.{pow-suc, div-one}
use rs_merkle_tree.Base.{
  le→ltb, true, ℕ, zero, suc, ◌+◌, ◌*◌, ◌/◌, ◌%◌, ◌^◌, ◌≤◌, ◌<◌, ◌≡◌, List, length, arith, ap, ◌∙◌,
  bit_and, bit_xor, ◌==◌, Bool, if◌then◌else◌,
}
use rs_merkle_tree.Base.Bits.{bit_xor-one, shift_suc}
use rs_merkle_tree.Run.{ok, ◌>>=◌}
use rs_merkle_tree.Node.{Node, zero_node, node_eq}
use rs_merkle_tree.Hasher.{Hasher}
use rs_merkle_tree.Store.{Store, StoreLaws}
use rs_merkle_tree.Tree.{MerkleTree, bit64}
use rs_merkle_tree.Tree.Spec.{node_at, zero_at, width, Represents}
use rs_merkle_tree.Tree.Spec.Facts.{node_at_beyond}
use rs_merkle_tree.Tree.Query.{climb, proof, verify_proof}
use rs_merkle_tree.Tree.Query.Path.{path_from, side_test}
use rs_merkle_tree.Tree.Query.Read.{proof-proof_at}

-- Past the end every step hashes two zeros.
climb-zero_at :
    (hasher : Hasher) (xs : List Node) (index rounds level : ℕ)
    → level + rounds < 64
    → index / 2 ^ level ≡ 2 ^ rounds
    → width level (length xs) ≤ 2 ^ rounds
    → climb hasher index level
        (zero_at hasher.hash level)
        (path_from hasher.hash xs rounds level (2 ^ rounds))
      ≡ zero_at hasher.hash (level + rounds)
unfolding climb
climb-zero_at hasher xs index zero level small place narrow = ap (zero_at hasher.hash) (omega arith)
climb-zero_at hasher xs index (suc rounds) level small place narrow =
    let hash = hasher.hash in
    let here = 2 ^ suc rounds in
    let double : 2 ^ suc rounds ≡ 2 ^ rounds * 2 = pow-suc 2 rounds in
    let half : here / 2 ≡ 2 ^ rounds = omega (arith, double) in
    let z = zero_at hash level in
    let sibling = node_at hash xs level (bit_xor here 1) in
    let empty : sibling ≡ z =
      node_at_beyond hash xs level (bit_xor here 1) (omega (arith, bit_xor-one here, double)) in
    let even : (index / 2 ^ level % 2 == 0) ≡ true = ground (arith, place, double) in
    let step : (if bit_and index (bit64 level) == 0 then hash z sibling else hash sibling z)
        ≡ zero_at hash (suc level) =
      ap (λ (b : Bool). if b then hash z sibling else hash sibling z)
        (side_test index level (omega arith) ∙ even)
      ∙ ap (hash z) empty in
    ap (λ c. climb hasher index (suc level) c (path_from hash xs rounds (suc level) (here / 2)))
      step
    ∙ ap
        (λ k.
          climb hasher index (suc level) (zero_at hash (suc level))
            (path_from hash xs rounds (suc level) k))
        half
    ∙ climb-zero_at hasher xs index rounds (suc level) (omega arith)
        (shift_suc index level ∙ ap (λ k. k / 2) place ∙ half) (omega (arith, double))
    ∙ ap (zero_at hash) (omega arith)

module _ {S : Type 0} ⦃st : Store S⦄ (laws : StoreLaws st) (depth : ℕ) (small : depth < 64)
    (t : MerkleTree S) (xs : List Node) (r : Represents laws depth t xs) where
  -- In a tree of depth below 64 that holds the leaves `xs`: `proof` makes a proof for the index
  -- `2 ^ DEPTH`, which no leaf can have, and `verify_proof` accepts it exactly when the root is
  -- that of the empty tree.
  pub proof_past_end :
      (proof depth (2 ^ depth) t >>= verify_proof t)
      ≡ ok (node_eq (zero_at t.hasher.hash depth) (node_at t.hasher.hash xs depth 0))
  unfolding verify_proof
  proof_past_end =
      let hash = t.hasher.hash in
      let made = proof-proof_at laws depth small t xs r (2 ^ depth) in
      let leaf : node_at hash xs 0 (2 ^ depth) ≡ zero_node =
        node_at_beyond hash xs 0 (2 ^ depth) r.fits in
      let top =
        climb-zero_at t.hasher xs (2 ^ depth) depth 0 (omega arith) (div-one (2 ^ depth)) r.fits in
      let total : 0 + depth ≡ depth = omega arith in
      rw (made, le→ltb (2 ^ depth) (2 ^ depth) (omega arith), leaf, top, total)
