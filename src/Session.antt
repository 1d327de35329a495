-- ===== src/Session.antt =====
-- Sequences of calls of the methods of `MerkleTree` (src/tree.rs), with the store and the tree
-- opened again in between: what the calls answer over a store, and what they answer over the list
-- of the leaves alone.
pub mod Serves
pub mod Follows
pub mod Refines
pub mod Again
pub mod Stores
pub mod Agree
pub mod Fresh
use rs_merkle_tree.Tree.Query.Agree.{answer}
use rs_merkle_tree.Tree.Spec.Reference.{reference_root}
use rs_merkle_tree.Hasher.{Hasher}
use rs_merkle_tree.Tree.Query.{root, proof, num_leaves, verify_proof, climb}
use rs_merkle_tree.Tree.Insert.{add_leaves}
use rs_merkle_tree.Tree.{MerkleTree, MerkleProof}
use rs_merkle_tree.Store.{Store}
use rs_merkle_tree.Node.{Node, IsNode, node_eq}
use rs_merkle_tree.Run.{tree_full, Run, ok, err, panic, index}
use rs_merkle_tree.Base.{
  ℕ, ◌+◌, ◌^◌, ◌<◌, Bool, List, [], ◌∷◌, ◌++◌, ltb, if◌then◌else◌, length, All,
}

pub data Call : Type 0 where
  add : List Node → Call
  ask_root : Call
  ask_proof : ℕ → Call
  count : Call
  check_proof : MerkleProof → Call
  reopen : Call

pub data Answer : Type 0 where
  added : Run (Unit {0}) → Answer
  is_root : Run Node → Answer
  made : Run MerkleProof → Answer
  counted : ℕ → Answer
  checked : Run Bool → Answer
  reopened : Run (Unit {0}) → Answer

-- The batches are slices of nodes, which have fewer than `2 ^ 63` elements.
abbrev pub IsCall : Call → Type 0
IsCall (add leaves) = All IsNode leaves × (length leaves < 2 ^ 63)
IsCall _ = Unit

-- A tree that cannot be opened again stays the one that it was.
abbrev pub opened : {S : Type 0} → MerkleTree S → Run (MerkleTree S) → MerkleTree S × Answer
opened t (ok t') = (t', reopened (ok tt))
opened t (err e) = (t, reopened (err e))
opened t panic = (t, reopened panic)

module _ {S : Type 0} ⦃st : Store S⦄ (again : MerkleTree S → Run (MerkleTree S)) (depth : ℕ) where
  -- One call: the tree that it leaves behind, and its answer.
  abbrev pub call : Call → MerkleTree S → MerkleTree S × Answer
  call (add leaves) t = let (t', a) = add_leaves depth leaves t in (t', added a)
  call ask_root t = (t, is_root (root depth t))
  call (ask_proof leaf_idx) t = (t, made (proof depth leaf_idx t))
  call count t = (t, counted (num_leaves t))
  call (check_proof p) t = (t, checked (verify_proof t p))
  call reopen t = opened t (again t)

  -- The tree after the calls, and their answers.
  abbrev pub run : List Call → MerkleTree S → MerkleTree S × List Answer
  run [] t = (t, [])
  run (c ∷ calls) t = let (t', a) = call c t in let (u, answers) = run calls t' in (u, a ∷ answers)

module _ (hasher : Hasher) (depth : ℕ) where
  -- The same calls on the list of the leaves.
  abbrev pub replay_call : Call → List Node → List Node × Answer
  replay_call (add leaves) xs =
      if ltb (2 ^ depth) (length xs + length leaves)
      then (xs, added (err (tree_full depth (2 ^ depth))))
      else (xs ++ leaves, added (ok tt))
  replay_call ask_root xs = (xs, is_root (reference_root hasher.hash depth xs))
  replay_call (ask_proof leaf_idx) xs = (xs, made (answer depth xs leaf_idx hasher))
  replay_call count xs = (xs, counted (length xs))
  replay_call (check_proof p) xs =
      (xs, checked (ok (node_eq (climb hasher p.index 0 p.leaf p.proof) p.root)))
  replay_call reopen xs = (xs, reopened (ok tt))

  abbrev pub replay : List Call → List Node → List Node × List Answer
  replay [] xs = (xs, [])
  replay (c ∷ calls) xs =
      let (ys, a) = replay_call c xs in let (zs, answers) = replay calls ys in (zs, a ∷ answers)
