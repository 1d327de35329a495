-- ===== src/Tests.antt =====
-- A small tree over the memory store: runs of the code, and the theorems at concrete inputs.
mod InMemory
mod Hashing
mod OnDisk
mod OnKeys
mod Connection
mod OnSqlite
mod Calls
mod Sessions
mod Schedules
mod Sources
mod Interrupted
use rs_merkle_tree.Tree.Query.Size.{proof-Shaped}
use rs_merkle_tree.Base.{
  length, max, map, ◌==◌, ◌^◌, ◌⊎◌, ltb, if◌then◌else◌, sym, ◌∙◌, ℕ, zero, suc, ◌+◌, ◌*◌, ◌%◌, ◌<◌,
  ◌≡◌, Option, List, [], ◌∷◌, ◌++◌, replicate, All, arith, refl, true,
}
use rs_merkle_tree.Run.{
  Run, index, panic, past_prefix, length_mismatch, store_error, ok, err, ◌>>=◌, tree_full,
  leaf_index_out_of_bounds,
}
use rs_merkle_tree.Run.Method.{Method, Returns, Returns-state}
use rs_merkle_tree.Node.{Node, IsNode, node_eq}
use rs_merkle_tree.Hasher.{hash_pair, Hasher, IsHasher, default_hash_pairs}
use rs_merkle_tree.Hasher.Keccak.{keccak_hasher, keccak_hash_pairs-map, keccak_hasher-IsHasher}
use rs_merkle_tree.Node.Hex.{parsed, try_from, display, try_from-display}
use rs_merkle_tree.Tree32.{Answers, default, default-Answers}
use rs_merkle_tree.Hasher.Default.{default_hash_pairs-map, default-IsHasher}
use rs_merkle_tree.Store.{Store, IsRun, write_run, look_each}
use rs_merkle_tree.Memory
use rs_merkle_tree.Memory.{get_num_leaves, get, put, look, MemoryStore, memory_store}
use rs_merkle_tree.Memory.Laws.{
  put-past_prefix, put_ok, get-look, memory_laws, look-new, num_leaves-new,
}
use rs_merkle_tree.Tree.{MerkleTree, MerkleProof, new}
use rs_merkle_tree.Tree.Create.{made, Holds, made-Represents, new-Represents}
use rs_merkle_tree.Tree.Spec.{node_at, zero_at, Represents}
use rs_merkle_tree.Tree.Spec.Facts.{stored-nil}
use rs_merkle_tree.Tree.Spec.Reference.{reference_root}
use rs_merkle_tree.Tree.Insert.{add_leaves}
use rs_merkle_tree.Tree.Insert.Correct.{add_leaves-Represents, add_leaves-tree_full}
use rs_merkle_tree.Tree.Insert.Batches.{add_batches, add_batches-agree}
use rs_merkle_tree.Tree.Query.{root, proof, verify_proof, num_leaves}
use rs_merkle_tree.Tree.Query.Read.{proof_at, proof-proof_at}
use rs_merkle_tree.Tree.Query.Root.{root-node_at, root-reference_root}
use rs_merkle_tree.Tree.Query.Verify.{
  Collision, PathCollision, verify_proof-proof, verify_proof_binds, verify_proof_sound,
}
use rs_merkle_tree.Tree.Query.Bound.{proof_past_end}

abbrev pub sum : List ℕ → ℕ
sum [] = 0
sum (b ∷ bs) = b + sum bs

abbrev pub node : ℕ → Node
node b = record { bytes = replicate 32 b }

-- A hash that tells the order of its arguments apart.
abbrev pub mix : Node → Node → Node
mix l r = node ((3 * sum l.bytes + sum r.bytes + 7) % 251)

All-replicate : (n b : ℕ) → b < 256 → All (λ c. c < 256) (replicate n b)
All-replicate zero b h = tt
All-replicate (suc n) b h = (h, All-replicate n b h)

pub node-IsNode : (b : ℕ) → b < 256 → IsNode (node b)
node-IsNode b h = (refl, All-replicate 32 b h)

abbrev pub hasher : Hasher
hasher = record { hash = mix; hash_pairs = default_hash_pairs mix }

pub hasher-IsHasher : IsHasher hasher
hasher-IsHasher = default-IsHasher mix (λ l r. node-IsNode _ (omega arith))

abbrev empty : MerkleTree MemoryStore
empty = made 3 hasher Memory.new

empty-Holds : Holds memory_laws 3 (omega arith) hasher hasher-IsHasher Memory.new []
empty-Holds = record {
  valid = tt;
  holds = λ l i _. look-new l i ∙ sym (stored-nil mix l i);
  counted = num_leaves-new;
  fits = omega arith;
  roomy = omega arith;
  are_nodes = tt;
}

empty-Represents : Represents memory_laws 3 empty []
empty-Represents =
    made-Represents memory_laws 3 (omega arith) hasher hasher-IsHasher Memory.new [] empty-Holds

abbrev pub five : List Node
five = node 1 ∷ node 2 ∷ node 3 ∷ node 4 ∷ node 5 ∷ []

pub five-nodes : All IsNode five
five-nodes = (
  node-IsNode 1 (omega arith),
  (
    node-IsNode 2 (omega arith),
    (node-IsNode 3 (omega arith), (node-IsNode 4 (omega arith), (node-IsNode 5 (omega arith), tt))),
  ),
)

abbrev pub sample : MerkleTree MemoryStore
sample = (add_leaves 3 five empty).0

sample_added : (Represents memory_laws 3 sample five) × (sample.hasher ≡ hasher)
sample_added =
    (Returns-state (
      add_leaves-Represents memory_laws 3 (omega arith) empty [] empty-Represents five
        (λ never. never) (omega arith) five-nodes)).1

pub sample-Represents : Represents memory_laws 3 sample five
sample-Represents = sample_added.0

pub sample-hasher : sample.hasher ≡ hasher
sample-hasher = sample_added.1

new-Represents_example :
    (t : MerkleTree MemoryStore) × (new 3 hasher Memory.new ≡ ok t) × Represents memory_laws 3 t []
new-Represents_example =
    new-Represents memory_laws 3 (omega arith) hasher hasher-IsHasher Memory.new [] empty-Holds

small : 3 < 64
small = omega arith

proof_past_end_example :
    (proof 3 (2 ^ 3) sample >>= verify_proof sample)
    ≡ ok (node_eq (zero_at sample.hasher.hash 3) (node_at sample.hasher.hash five 3 0))
proof_past_end_example = proof_past_end memory_laws 3 (omega arith) sample five sample-Represents

root-reference_root_example : root 3 sample ≡ reference_root sample.hasher.hash 3 five
root-reference_root_example =
    root-reference_root memory_laws 3 (omega arith) sample five sample-Represents

proof-proof_at_example : proof 3 4 sample ≡ (
    if ltb (2 ^ 3) 4
    then err (leaf_index_out_of_bounds 4 (2 ^ 3))
    else ok (proof_at memory_laws 3 small sample five sample-Represents 4))
proof-proof_at_example = proof-proof_at memory_laws 3 small sample five sample-Represents 4

verify_proof-proof_example : (proof 3 4 sample >>= verify_proof sample) ≡ ok true
verify_proof-proof_example =
    verify_proof-proof memory_laws 3 small sample five sample-Represents 4 (omega arith)

abbrev pub three : List Node
three = node 6 ∷ node 7 ∷ node 8 ∷ []

abbrev pub four : List Node
four = node 6 ∷ node 7 ∷ node 8 ∷ node 9 ∷ []

pub three-nodes : All IsNode three
three-nodes =
    (node-IsNode 6 (omega arith), (node-IsNode 7 (omega arith), (node-IsNode 8 (omega arith), tt)))

add_leaves-Represents_example :
    Returns
      (λ t' _. Represents memory_laws 3 t' (five ++ three) × (t'.hasher ≡ sample.hasher))
      (add_leaves 3 three sample)
add_leaves-Represents_example =
    add_leaves-Represents memory_laws 3 (omega arith) sample five sample-Represents three
      (λ never. never) (omega arith) three-nodes

add_leaves-tree_full_example : add_leaves 3 four sample ≡ (sample, err (tree_full 3 (2 ^ 3)))
add_leaves-tree_full_example =
    add_leaves-tree_full memory_laws 3 (omega arith) sample five sample-Represents four
      (omega arith) (omega arith) (omega arith)

abbrev fifth : MerkleProof
fifth = proof_at memory_laws 3 small sample five sample-Represents 4

fifth_accepted : verify_proof sample fifth ≡ ok true
fifth_accepted =
    let made = proof-proof_at memory_laws 3 small sample five sample-Represents 4 in
    rw made at verify_proof-proof_example

proof-Shaped_example :
    (length fifth.proof ≡ 3) × (fifth.index ≡ 4) × (root 3 sample ≡ ok fifth.root)
proof-Shaped_example =
    proof-Shaped 3 4 sample fifth
      (proof-proof_at memory_laws 3 small sample five sample-Represents 4)

verify_proof_sound_example :
    (fifth.leaf ≡ node_at sample.hasher.hash five 0 4)
    ⊎ PathCollision sample.hasher.hash five 0 4 fifth.leaf fifth.proof
verify_proof_sound_example =
    verify_proof_sound memory_laws 3 small sample five sample-Represents fifth refl (omega arith)
      (root-node_at memory_laws 3 small sample five sample-Represents) fifth_accepted

-- Two proofs of depth 1 that the small hash of these tests cannot tell apart.
abbrev shown : MerkleProof
shown = record { proof = node 2 ∷ []; leaf = node 1; index = 0; root = node 167 }

abbrev forged : MerkleProof
forged = record { proof = node 5 ∷ []; leaf = node 0; index = 0; root = node 167 }

shown_accepted : verify_proof empty shown ≡ ok true
unfolding verify_proof node_eq
shown_accepted = refl

forged_accepted : verify_proof empty forged ≡ ok true
unfolding verify_proof node_eq
forged_accepted = refl

verify_proof_binds_example : Collision mix
verify_proof_binds_example =
    verify_proof_binds empty shown forged refl refl refl shown_accepted forged_accepted (cc)

add_batches-agree_example :
    (u : MerkleTree MemoryStore) × (u' : MerkleTree MemoryStore) × (add_batches 3
        (three ∷ [])
        sample
      ≡ (u, ok tt))
    × (add_batches 3 ((node 6 ∷ []) ∷ (node 7 ∷ node 8 ∷ []) ∷ []) sample ≡ (u', ok tt))
    × (root 3 u ≡ root 3 u')
    × (num_leaves u ≡ num_leaves u')
    × ((leaf_idx : ℕ) → proof 3 leaf_idx u ≡ proof 3 leaf_idx u')
add_batches-agree_example =
    add_batches-agree memory_laws 3 small (λ never. never) sample five (three ∷ [])
      ((node 6 ∷ []) ∷ (node 7 ∷ node 8 ∷ []) ∷ []) sample-Represents refl (omega arith)
      (three-nodes, tt) ((three-nodes.0, tt), (three-nodes.1, tt))

abbrev pub pair : List Node
pair = node 1 ∷ node 2 ∷ []

pub pair-nodes : All IsNode pair
pair-nodes = (node-IsNode 1 (omega arith), (node-IsNode 2 (omega arith), tt))

pub pair-IsRun : (look : ℕ → ℕ → Option Node) → IsRun look 0 0 pair
pair-IsRun look = record {
  level_fits = omega arith;
  end_fits = omega arith;
  nonempty = omega arith;
  no_hole = λ i h. absurd (omega arith);
  are_nodes = pair-nodes;
}
