-- ===== src/Tree/Level.antt =====
-- src/tree.rs: one level of `add_leaves`, from the run that was written below it.
pub mod Pairs
pub mod Writes
pub mod Parents
pub mod Parallel
use rs_merkle_tree.Base.{
  ℕ, ◌+◌, ◌-◌, List, [], ◌∷◌, ◌++◌, leb, ltb, ◌==◌, bit_and, length, take, drop, if◌then◌else◌,
}
use rs_merkle_tree.Run.{Run, ok, panic, ◌>>=◌, index, assign, slice_to, slice_from}
use rs_merkle_tree.Node.{Node}
use rs_merkle_tree.Hasher.{Hasher}
use rs_merkle_tree.Hasher.Chunks.{for_each_chunk}
use rs_merkle_tree.Tree.{Zeros, zeros_index, min_parallel_hashes}

-- `as_chunks::<2>()`
unfoldable pub as_chunks {ℓ} : {A : Type ℓ} → List A → List (A × A) × List A
as_chunks [] = ([], [])
as_chunks (a ∷ []) = ([], a ∷ [])
as_chunks (a ∷ b ∷ xs) = let (pairs, tail) = as_chunks xs in ((a, b) ∷ pairs, tail)

-- `usize::from(start & 1 == 1)`
unfoldable pub head_len : ℕ → ℕ
head_len start = if bit_and start 1 == 1 then 1 else 0

-- The parent of the stored left partner and the first node of the run.
unfoldable pub write_head : Hasher → Node → List Node → ℕ → List Node → Run (List Node)
write_head hasher left_partner nodes head parents =
    if head == 1
    then (do first ← index nodes 0; assign parents 0 (hasher.hash left_partner first))
    else ok parents

-- The parent of the last node and the level's zero.
unfoldable pub write_tail : ℕ → Hasher → Zeros → ℕ → List Node → ℕ → List Node → Run (List Node)
write_tail depth hasher zeros level (last ∷ []) at parents = do
  zero ← zeros_index depth zeros level
  assign parents at (hasher.hash last zero)
write_tail depth hasher zeros level tail at parents = ok parents

-- The parents of the whole pairs, in parallel where there are enough of them.
unfoldable pub hash_body : Hasher → List (Node × Node) → List Node → Run (List Node)
hash_body hasher pairs out =
    if leb min_parallel_hashes (length pairs)
    then for_each_chunk min_parallel_hashes hasher.hash_pairs pairs out
    else hasher.hash_pairs pairs out

-- The whole pairs, hashed into `parents[head..head + pairs.len()]`.
unfoldable pub write_body : Hasher → List (Node × Node) → ℕ → List Node → Run (List Node)
unfolding hash_body
write_body hasher pairs head parents = do
  rest ← slice_from parents head
  body_out ← slice_to rest (length pairs)
  hashed ← hash_body hasher pairs body_out
  ok (take head parents ++ (hashed ++ drop (head + length pairs) parents))

-- The hashing of one level: what `parents`, a slice of the buffer, holds after it.
unfoldable pub hash_level :
    ℕ → Hasher → Zeros → ℕ → Node → ℕ → List Node → List Node → Run (List Node)
hash_level depth hasher zeros level left_partner start nodes buffer = do
  let head = head_len start
  body ← slice_from nodes head
  let pairs = (as_chunks body).0
  let tail = (as_chunks body).1
  parents ← slice_to buffer (head + length pairs + length tail)
  parents ← write_head hasher left_partner nodes head parents
  parents ← write_tail depth hasher zeros level tail (head + length pairs) parents
  write_body hasher pairs head parents
