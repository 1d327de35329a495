-- ===== src/Tree/Query/Verify.antt =====
-- Proofs that the tree makes are accepted, and an accepted proof binds its leaf.
use rs_merkle_tree.Base.Bits.{shift_suc}
use native.Mathlib.Nat.{div-one, div-eq_of_lt}
use rs_merkle_tree.Base.{
  inr, Bool-cases, ◌⊎◌, le→ltb, inl, true, ℕ, suc, ◌+◌, ◌*◌, ◌%◌, ◌/◌, ◌^◌, ◌<◌, ◌≡◌, ◌≢◌, List, [],
  ◌∷◌, length, arith, ap, ◌∙◌, sym, bit_and, ◌==◌, if◌then◌else◌,
}
use rs_merkle_tree.Run.{ok, ◌>>=◌}
use rs_merkle_tree.Node.{Node-cases, Node, node_eq_iff}
use rs_merkle_tree.Hasher.{Hasher}
use rs_merkle_tree.Store.{Store, StoreLaws}
use rs_merkle_tree.Tree.{MerkleTree, MerkleProof, bit64}
use rs_merkle_tree.Tree.Spec.{node_at, Represents}
use rs_merkle_tree.Tree.Query.{root, climb, proof, verify_proof}
use rs_merkle_tree.Tree.Query.Path.{path_from, climb-path_from, side_test}
use rs_merkle_tree.Tree.Query.Read.{proof-proof_at}
use rs_merkle_tree.Tree.Query.Root.{root-node_at}

-- From a leaf below `2 ^ DEPTH` the path leads to the root.
climb-root :
    (hasher : Hasher) (xs : List Node) (depth index : ℕ)
    → depth < 64
    → index < 2 ^ depth
    → climb hasher index 0 (node_at hasher.hash xs 0 index) (path_from hasher.hash xs depth 0 index)
      ≡ node_at hasher.hash xs depth 0
climb-root hasher xs depth index small inside =
    let up = climb-path_from hasher xs index depth 0 (omega arith) in
    let start : index / 2 ^ 0 ≡ index = div-one index in
    let end : index / 2 ^ depth ≡ 0 = div-eq_of_lt inside in
    let total : 0 + depth ≡ depth = omega arith in
    let down =
      ap
        (λ k.
          climb hasher index 0 (node_at hasher.hash xs 0 k) (path_from hasher.hash xs depth 0 k))
        start in
    sym down
    ∙ up
    ∙ ap (λ k. node_at hasher.hash xs k (index / 2 ^ k)) total
    ∙ ap (node_at hasher.hash xs depth) end

-- Two different pairs of nodes with one hash.
abbrev pub Collision : (Node → Node → Node) → Type 0
Collision hash =
    (a : Node) × (b : Node) × (c : Node) × (d : Node) × (hash a b ≡ hash c d)
    × (¬ ((a ≡ c) × (b ≡ d)))

-- Two paths of one length and one index that lead from different nodes to one root collide.
climb-Collision :
    (hasher : Hasher) (index j : ℕ) (a b : Node) (ss ts : List Node)
    → length ss ≡ length ts
    → a ≢ b
    → climb hasher index j a ss ≡ climb hasher index j b ts
    → Collision hasher.hash
unfolding climb
climb-Collision hasher index j a b [] [] size ne e = absurd (ne e)
climb-Collision hasher index j a b [] (t ∷ ts) size ne e = absurd (omega arith)
climb-Collision hasher index j a b (s ∷ ss) [] size ne e = absurd (omega arith)
climb-Collision hasher index j a b (s ∷ ss) (t ∷ ts) size ne e =
    let hash = hasher.hash in
    let test = bit_and index (bit64 j) == 0 in
    let a' = if test then hash a s else hash s a in
    let b' = if test then hash b t else hash t b in
    elim (Node-cases a' b') [
      | inl same ↦ elim (Bool-cases test) [
        | inl left ↦ (a, s, b, t, rw left at same, λ p. ne p.0)
        | inr right ↦ (s, a, t, b, rw right at same, λ p. ne p.1)
      ]
      | inr other ↦ climb-Collision hasher index (suc j) a' b' ss ts (omega arith) other e
    ]

-- What a path from `node` at index `i` of `level` upwards hashes first, in the order of its side.
abbrev pub ordered : ℕ → Node → Node → Node × Node
ordered i node sibling = if i % 2 == 0 then (node, sibling) else (sibling, node)

-- On the way up from `node` with these siblings, at some level: the pair of nodes that is hashed is
-- not the pair that the tree over `xs` has there, and it has the hash that the tree's pair has.
abbrev pub PathCollision : (Node → Node → Node) → List Node → ℕ → ℕ → Node → List Node → Type 0
PathCollision hash xs level i node [] = ⊥
PathCollision hash xs level i node (sibling ∷ siblings) =
    let (left, right) = ordered i node sibling in
    let tree_left = node_at hash xs level (i / 2 * 2) in
    let tree_right = node_at hash xs level (suc (i / 2 * 2)) in
    ((hash left right ≡ hash tree_left tree_right)
      × (¬ ((left ≡ tree_left) × (right ≡ tree_right))))
    ⊎ PathCollision hash xs (suc level) (i / 2) (hash left right) siblings

-- The step of `verify_proof` hashes the ordered pair.
climb-ordered :
    (hasher : Hasher) (index level i : ℕ) (node sibling : Node) (siblings : List Node)
    → level < 64
    → index / 2 ^ level ≡ i
    → climb hasher index level node (sibling ∷ siblings)
      ≡ climb hasher index
          (suc level)
          (hasher.hash (ordered i node sibling).0 (ordered i node sibling).1)
          siblings
unfolding climb
climb-ordered hasher index level i node sibling siblings small at =
    let test : (bit_and index (bit64 level) == 0) ≡ (i % 2 == 0) =
      side_test index level small ∙ ap (λ k. k % 2 == 0) at in
    elim (Bool-cases (i % 2 == 0)) [ inl even ↦ rw (test, even) | inr odd ↦ rw (test, odd) ]

-- The pair of a node that the tree does not have is not the tree's.
ordered-differs :
    (hash : Node → Node → Node) (xs : List Node) (level i : ℕ) (node sibling : Node)
    → node ≢ node_at hash xs level i
    → ¬ (
        ((ordered i node sibling).0 ≡ node_at hash xs level (i / 2 * 2))
        × ((ordered i node sibling).1 ≡ node_at hash xs level (suc (i / 2 * 2))))
ordered-differs hash xs level i node sibling ne (same_left, same_right) =
    elim (Bool-cases (i % 2 == 0)) [
      | inl even ↦
          let here : i / 2 * 2 ≡ i = ground arith in
          ne (rw even at same_left ∙ ap (node_at hash xs level) here)
      | inr odd ↦
          let here : suc (i / 2 * 2) ≡ i = ground arith in
          ne (rw odd at same_right ∙ ap (node_at hash xs level) here)
    ]

-- A path that leads from a node that the tree does not have to the tree's root collides with it.
climb-PathCollision :
    (hasher : Hasher) (xs : List Node) (index level i depth : ℕ) (node : Node) (ss : List Node)
    → level + length ss ≡ depth
    → depth < 64
    → index / 2 ^ level ≡ i
    → index / 2 ^ depth ≡ 0
    → node ≢ node_at hasher.hash xs level i
    → climb hasher index level node ss ≡ node_at hasher.hash xs depth 0
    → PathCollision hasher.hash xs level i node ss
unfolding climb
climb-PathCollision hasher xs index level i depth node [] size small at top ne up =
    let level_top : depth ≡ level = omega arith in
    let ends : node_at hasher.hash xs depth 0 ≡ node_at hasher.hash xs level i =
      ap (λ l. node_at hasher.hash xs l 0) level_top
      ∙ ap (node_at hasher.hash xs level) (sym top ∙ ap (λ l. index / 2 ^ l) level_top ∙ at) in
    ne (up ∙ ends)
climb-PathCollision hasher xs index level i depth node (s ∷ ss) size small at top ne up =
    let hash = hasher.hash in
    let parent = hash (ordered i node s).0 (ordered i node s).1 in
    let up' = sym (climb-ordered hasher index level i node s ss (omega arith) at) ∙ up in
    let at' : index / 2 ^ suc level ≡ i / 2 = shift_suc index level ∙ ap (λ k. k / 2) at in
    elim (Node-cases parent (node_at hash xs (suc level) (i / 2))) [
      | inl same ↦ inl (same, ordered-differs hash xs level i node s ne)
      | inr other ↦ inr (
          climb-PathCollision hasher xs index (suc level) (i / 2) depth parent ss (omega arith)
            small at' top other up')
    ]

accepted-climb :
    {S : Type 0} ⦃st : Store S⦄ (t : MerkleTree S) (p : MerkleProof)
    → verify_proof t p ≡ ok true
    → climb t.hasher p.index 0 p.leaf p.proof ≡ p.root
unfolding verify_proof
accepted-climb t p accepted = (node_eq_iff (climb t.hasher p.index 0 p.leaf p.proof) p.root).0 (cc)

module _ {S : Type 0} ⦃st : Store S⦄ (t : MerkleTree S) where
  -- Two accepted proofs of one length, index and root that show different leaves give two
  -- different pairs of nodes with the same hash.
  pub verify_proof_binds :
      (p q : MerkleProof)
      → length p.proof ≡ length q.proof
      → p.index ≡ q.index
      → p.root ≡ q.root
      → verify_proof t p ≡ ok true
      → verify_proof t q ≡ ok true
      → p.leaf ≢ q.leaf
      → Collision t.hasher.hash
  verify_proof_binds p q size index root okp okq ne =
      climb-Collision t.hasher p.index 0 p.leaf q.leaf p.proof q.proof size ne (
        accepted-climb t p okp
        ∙ root
        ∙ sym (accepted-climb t q okq)
        ∙ ap (λ i. climb t.hasher i 0 q.leaf q.proof) (sym index))

module _ {S : Type 0} ⦃st : Store S⦄ (laws : StoreLaws st) (depth : ℕ) (small : depth < 64)
    (t : MerkleTree S) (xs : List Node) (r : Represents laws depth t xs) where
  -- In a tree of depth below 64 that holds the leaves `xs`: the proof of every index below
  -- `2 ^ DEPTH`, also past the last leaf, is made and is accepted by `verify_proof`.
  pub verify_proof-proof :
      (leaf_idx : ℕ) → leaf_idx < 2 ^ depth → (proof depth leaf_idx t >>= verify_proof t) ≡ ok true
  unfolding verify_proof
  verify_proof-proof leaf_idx inside =
      let made = proof-proof_at laws depth small t xs r leaf_idx in
      let top = climb-root t.hasher xs depth leaf_idx small inside in
      let same = (node_eq_iff _ _).1 top in
      rw (made, le→ltb (2 ^ depth) leaf_idx (omega arith), same)

  -- In a tree of depth below 64 that holds the leaves `xs`: an accepted proof of `DEPTH`
  -- siblings for the tree's root and an index below `2 ^ DEPTH` shows the leaf that the tree holds
  -- there (a zero past the last leaf), or at some level of the proof's own path the pair of nodes
  -- that is hashed differs from the pair that the tree has at that place and has the same hash.
  pub verify_proof_sound :
      (p : MerkleProof)
      → length p.proof ≡ depth
      → p.index < 2 ^ depth
      → root depth t ≡ ok p.root
      → verify_proof t p ≡ ok true
      → (p.leaf ≡ node_at t.hasher.hash xs 0 p.index)
        ⊎ PathCollision t.hasher.hash xs 0 p.index p.leaf p.proof
  verify_proof_sound p size inside root_read accepted =
      let hash = t.hasher.hash in
      let made = root-node_at laws depth small t xs r in
      let same_root : p.root ≡ node_at hash xs depth 0 = cc in
      elim (Node-cases p.leaf (node_at hash xs 0 p.index)) [
        | inl same ↦ inl same
        | inr other ↦ inr (
            climb-PathCollision t.hasher xs p.index 0 p.index depth p.leaf p.proof (omega arith)
              small (div-one p.index) (div-eq_of_lt inside) other
              (accepted-climb t p accepted ∙ same_root))
      ]
