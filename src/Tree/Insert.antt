-- ===== src/Tree/Insert.antt =====
-- src/tree.rs: `add_leaves`.
pub mod Stored
pub mod Levels
pub mod Ends
pub mod Correct
pub mod Batches
use rs_merkle_tree.Base.{
  ℕ, zero, suc, ◌+◌, ◌-◌, ◌/◌, List, [], ◌∷◌, ◌++◌, ltb, ◌==◌, length, drop, replicate,
  if◌then◌else◌,
}
use rs_merkle_tree.Run.{Run, ok, tree_full, slice_to}
use rs_merkle_tree.Run.Method.{Method, ◌>>=◌, ◌>>◌, return, lift, fail, gets, modify}
use rs_merkle_tree.Node.{Node, zero_node}
use rs_merkle_tree.Store.{Store}
use rs_merkle_tree.Tree.{MerkleTree, add64, bit64, as_u32}
use rs_merkle_tree.Tree.Level.{hash_level}
use rs_merkle_tree.Tree.Fetch.{fetch_list, fill_partners}

-- `if buf.len() < size { buf.resize(size, Node::ZERO) }`
unfoldable pub grow : ℕ → List Node → List Node
grow size buf =
    if ltb (length buf) size then buf ++ replicate (size - length buf) zero_node else buf

-- The run that a level reads: the caller's leaves, or a scratch buffer.
unfoldable pub level_nodes : List Node → List Node → ℕ → ℕ → Run (List Node)
level_nodes leaves run run_len level = if level == 0 then ok leaves else slice_to run run_len

-- The second buffer after a level: its parents are hashed into a prefix.
unfoldable pub overwrite_prefix : List Node → List Node → List Node
overwrite_prefix parents buffer = parents ++ drop (length parents) buffer

module _ {S : Type 0} ⦃st : Store S⦄ where
  -- A call of the tree's store.
  abbrev pub on_store : {A : Type 0} → Method S A → Method (MerkleTree S) A
  on_store m t = (record t { store = (m t.store).0 }, (m t.store).1)

  -- The loop over the levels, from `level` on. Where `put` fails the error leaves at once, with
  -- the parents in the second buffer.
  unfoldable pub add_levels :
      ℕ → List Node → List Node → ℕ → ℕ → ℕ → Method (MerkleTree S) (Unit {0})
  unfolding level_nodes overwrite_prefix
  add_levels depth leaves [] level start run_len = return tt
  add_levels depth leaves (left_partner ∷ left_partners) level start run_len = do
    t ← gets (λ t. t)
    nodes ← lift (level_nodes leaves t.scratch.0 run_len level)
    parents ← lift (hash_level depth t.hasher t.zeros level left_partner start nodes t.scratch.1)
    modify (λ t. record t { scratch = (t.scratch.0, overwrite_prefix parents t.scratch.1) })
    on_store (st.put (as_u32 (level + 1)) (start / 2) parents)
    modify (λ t. record t { scratch = (t.scratch.1, t.scratch.0) })
    add_levels depth leaves left_partners (suc level) (start / 2) (length parents)

  -- The part of `add_leaves` behind its two early returns.
  unfoldable pub insert_leaves : ℕ → List Node → ℕ → Method (MerkleTree S) (Unit {0})
  unfolding grow add_levels
  insert_leaves depth leaves num_leaves = do
    let (levels, indices) = fetch_list depth 0 num_leaves
    t ← gets (λ t. t)
    fetched ← lift (st.get t.store levels indices)
    left_partners ← lift (fill_partners depth t.zeros levels fetched (replicate depth zero_node))
    on_store (st.put 0 num_leaves leaves)
    let size = length leaves / 2 + 1
    modify (λ t. record t { scratch = (grow size t.scratch.0, grow size t.scratch.1) })
    add_levels depth leaves left_partners 0 num_leaves (length leaves)

  unfoldable pub add_leaves : ℕ → List Node → Method (MerkleTree S) (Unit {0})
  unfolding insert_leaves
  add_leaves depth [] t = return tt t
  add_leaves depth (leaf ∷ leaves) t =
      let num_leaves = st.get_num_leaves t.store in
      if ltb (bit64 depth) (add64 num_leaves (length (leaf ∷ leaves)))
      then fail (tree_full (as_u32 depth) (bit64 depth)) t
      else insert_leaves depth (leaf ∷ leaves) num_leaves t
