-- ===== src/Tree/Level/Pairs.antt =====
-- Pairing a run of consecutive nodes, and hashing the pairs.
use rs_merkle_tree.Base.{
  length-take, le→ltb, length-drop, ◌-◌, inr, inl, drop, leb, take, Bool-cases, ℕ, zero, suc, ◌+◌,
  ◌*◌, ◌≤◌, ◌<◌, ◌≡◌, List, [], ◌∷◌, ◌++◌, length, tabulate, arith, ap, refl, map, All,
}
use rs_merkle_tree.Run.{ok}
use rs_merkle_tree.Node.{Node, IsNode}
use rs_merkle_tree.Hasher.Chunks.{for_each_chunk-map_each}
use rs_merkle_tree.Hasher.{Hasher, IsHasher, IsPair, hash_pair}
use rs_merkle_tree.Tree.Level.{min_parallel_hashes, as_chunks, hash_body, write_body}

module _ {ℓ} {A : Type ℓ} where
  -- The parents' function, from the function of the nodes below.
  abbrev pub pair_up : (A → A → A) → (ℕ → A) → ℕ → A
  pair_up hash f i = hash (f (i * 2)) (f (suc (i * 2)))

module _ (hash : Node → Node → Node) (f : ℕ → Node) (rest : List Node)
    (short : length rest < 2) where
  pub as_chunks-tabulate :
      (p q : ℕ)
      → (map (hash_pair hash) (as_chunks (tabulate f (q * 2) (p * 2) ++ rest)).0
          ≡ tabulate (pair_up hash f) q p)
        × ((as_chunks (tabulate f (q * 2) (p * 2) ++ rest)).1 ≡ rest)
  unfolding as_chunks
  as_chunks-tabulate zero q = last rest short
    where
      last :
          (r : List Node)
          → length r < 2
          → (map (hash_pair hash) (as_chunks r).0 ≡ []) × ((as_chunks r).1 ≡ r)
      last [] h = (refl, refl)
      last (x ∷ []) h = (refl, refl)
      last (x ∷ y ∷ r) h = absurd (omega arith)
  as_chunks-tabulate (suc p) q =
      let count : suc p * 2 ≡ suc (suc (p * 2)) = omega arith in
      let next : suc (suc (q * 2)) ≡ suc q * 2 = omega arith in
      let (pairs, tail) = as_chunks-tabulate p (suc q) in
      rw (count, next) (ap (◌∷◌ (pair_up hash f q)) pairs, tail)

pub as_chunks-IsPair :
    (f : ℕ → Node) (rest : List Node)
    → ((i : ℕ) → IsNode (f i))
    → length rest < 2
    → (p q : ℕ) → All IsPair (as_chunks (tabulate f (q * 2) (p * 2) ++ rest)).0
unfolding as_chunks
as_chunks-IsPair f [] are_nodes short zero q = tt
as_chunks-IsPair f (x ∷ []) are_nodes short zero q = tt
as_chunks-IsPair f (x ∷ y ∷ rest) are_nodes short zero q = absurd (omega arith)
as_chunks-IsPair f rest are_nodes short (suc p) q =
    let count : suc p * 2 ≡ suc (suc (p * 2)) = omega arith in
    let next : suc (suc (q * 2)) ≡ suc q * 2 = omega arith in
    let pairs = as_chunks-IsPair f rest are_nodes short p (suc q) in
    rw (count, next) ((are_nodes (q * 2), are_nodes (suc (q * 2))), pairs)

-- Serial or parallel, the body of a level hashes every pair.
pub hash_body-map :
    (hasher : Hasher) (pairs : List (Node × Node)) (out : List Node)
    → IsHasher hasher
    → length pairs ≡ length out
    → All IsPair pairs
    → hash_body hasher pairs out ≡ ok (map (hash_pair hasher.hash) pairs)
unfolding hash_body
hash_body-map hasher pairs out h e each =
    elim (Bool-cases (leb min_parallel_hashes (length pairs))) [
      | inl many ↦ rw many (
          for_each_chunk-map_each IsPair 64 (omega arith) hasher.hash_pairs (hash_pair hasher.hash)
            pairs out (λ x o same _. h.pairs_ok x o same) e each)
      | inr few ↦ rw few (h.pairs_ok pairs out e each)
    ]

-- The body is written behind the head and before the tail, whatever was there.
pub write_body-map :
    (hasher : Hasher) (pairs : List (Node × Node)) (head : ℕ) (parents : List Node)
    → IsHasher hasher
    → All IsPair pairs
    → head + length pairs ≤ length parents
    → write_body hasher pairs head parents
      ≡ ok (
          take head parents
          ++ (map (hash_pair hasher.hash) pairs ++ drop (head + length pairs) parents))
unfolding write_body
write_body-map hasher pairs head parents h each e =
    let size : length (drop head parents) ≡ length parents - head = length-drop head parents in
    rw (
      le→ltb (length parents) head (omega arith),
      le→ltb (length (drop head parents)) (length pairs) (omega arith),
      hash_body-map hasher pairs (take (length pairs) (drop head parents)) h
          (omega (arith, length-take (length pairs) (drop head parents))) each,
    )
