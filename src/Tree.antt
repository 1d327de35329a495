-- ===== src/Tree.antt =====
-- src/tree.rs: the tree, its cached zeros, and `new`. `DEPTH` is an argument. `u64` arithmetic
-- wraps, as it does in a release build.
pub mod Spec
pub mod Level
pub mod Fetch
pub mod Insert
pub mod Query
pub mod Reach
pub mod Interrupted
pub mod Create
use rs_merkle_tree.Base.{
  [], ℕ, zero, suc, ◌+◌, ◌-◌, ◌*◌, ◌/◌, ◌%◌, ◌^◌, List, ltb, ◌==◌, set, replicate, if◌then◌else◌,
}
use rs_merkle_tree.Run.{Run, ok, panic, ◌>>=◌, index, assign}
use rs_merkle_tree.Node.{Node, zero_node}
use rs_merkle_tree.Hasher.{Hasher}

-- `a + b`, `1 << k` and `n >> k` on `u64`; `as u32`.
abbrev pub add64 : ℕ → ℕ → ℕ
add64 a b = (a + b) % 2 ^ 64

abbrev pub bit64 : ℕ → ℕ
bit64 k = 2 ^ (k % 64)

abbrev pub shr64 : ℕ → ℕ → ℕ
shr64 n k = n / 2 ^ (k % 64)

abbrev pub as_u32 : ℕ → ℕ
as_u32 n = n % 2 ^ 32

-- `MerkleProof`, with its array of `DEPTH` nodes as a list.
pub record MerkleProof : Type 0 where
  pub proof : List Node
  pub leaf : Node
  pub index : ℕ
  pub root : Node

pub record Zeros : Type 0 where
  pub front : List Node
  pub last : Node

pub record MerkleTree (S : Type 0) : Type 0 where
  pub hasher : Hasher
  pub store : S
  pub zeros : Zeros
  pub scratch : List Node × List Node

-- `MIN_PARALLEL_HASHES`
abbrev pub min_parallel_hashes : ℕ
min_parallel_hashes = 64

-- `Index for Zeros`
unfoldable pub zeros_index : ℕ → Zeros → ℕ → Run Node
zeros_index depth zeros i =
    if ltb i depth then index zeros.front i else if i == depth then ok zeros.last else panic

-- `for i in 1..DEPTH { zero[i] = hash(zero[i - 1], zero[i - 1]) }`, from `i` on.
unfoldable pub fill_zeros : (Node → Node → Node) → ℕ → ℕ → List Node → Run (List Node)
fill_zeros hash zero i zeros = ok zeros
fill_zeros hash (suc rounds) i zeros = do
  below ← index zeros (i - 1)
  zeros' ← assign zeros i (hash below below)
  fill_zeros hash rounds (suc i) zeros'

-- `MerkleTree::new`. At depth 0 there is no entry `DEPTH - 1`.
unfoldable pub new : {S : Type 0} → ℕ → Hasher → S → Run (MerkleTree S)
unfolding fill_zeros
new depth hasher store = do
  front ← fill_zeros hasher.hash (depth - 1) 1 (replicate depth zero_node)
  below ← index front (depth - 1)
  ok (record {
    hasher = hasher;
    store = store;
    zeros = record { front = front; last = hasher.hash below below };
    scratch = ([], []);
  })
