-- ===== src/Tree/Insert/Levels.antt =====
-- The loop over the levels: after level `l` the store holds every node up to level `l + 1`.
use native.Mathlib.Decide.{ℕ_discrete}
use native.Mathlib.Nat.{le_trans, pow-le-pow_right}
use rs_merkle_tree.Base.{
  false, ◌==◌, take-append, length-drop, le→ltb, length-append, drop, length-tabulate,
  get_elem?-tabulate, ℕ, suc, ◌+◌, ◌-◌, ◌/◌, ◌%◌, ◌^◌, ◌≤◌, ◌<◌, ◌≡◌, List, ◌++◌, length, tabulate,
  arith, ap, ◌∙◌, sym, refl, All,
}
use rs_merkle_tree.Run.{ok}
use rs_merkle_tree.Node.{Node, IsNode}
use rs_merkle_tree.Store.{Store, StoreLaws, write_run, IsRun}
use rs_merkle_tree.Tree.{MerkleTree, zeros_index}
use rs_merkle_tree.Tree.Spec.{node_at, zero_at, full, width, stored, IsTree}
use rs_merkle_tree.Tree.Spec.Facts.{node_at_beyond, full-le-width, node_at_prefix, node_at-IsNode}
use rs_merkle_tree.Tree.Level.Parents.{hash_level-tabulate}
use rs_merkle_tree.Tree.Insert.Stored.{width_le, All-tabulate, stored-write_run, stored-no_hole}
use rs_merkle_tree.Tree.Insert.{hash_level, level_nodes, overwrite_prefix}

-- The zeros of a tree are read without a panic.
pub zeros_index-zero_at :
    {S : Type 0} (depth : ℕ) (t : MerkleTree S)
    → IsTree depth t
    → (l : ℕ) → l ≤ depth
    → zeros_index depth t.zeros l ≡ ok (zero_at t.hasher.hash l)
unfolding zeros_index
zeros_index-zero_at depth t h l le =
    rw (h.front, h.last)
      (ground (arith, get_elem?-tabulate (zero_at t.hasher.hash) 0 depth l, same))
  where
    same : zero_at t.hasher.hash (0 + l) ≡ zero_at t.hasher.hash l
    same = ap (zero_at t.hasher.hash) (omega arith)

module _ {S : Type 0} ⦃st : Store S⦄ (laws : StoreLaws st) (depth : ℕ) (small : depth < 64)
    (xs leaves : List Node) (some_leaf : 0 < length leaves)
    (fits : length (xs ++ leaves) ≤ 2 ^ depth) (roomy : 2 ^ depth ≤ laws.capacity)
    (are_nodes : All IsNode (xs ++ leaves)) where
  -- Before level `l` is hashed the store holds all of the nodes up to `l`, and above it those of
  -- the old leaves.
  pub record Loop (t : MerkleTree S) (l start n run_len : ℕ) : Type 0 where
    pub is_tree : IsTree depth t
    pub valid : laws.IsValid t.store
    pub done : (k i : ℕ) → k ≤ l → laws.look t.store k i ≡ stored t.hasher.hash (xs ++ leaves) k i
    pub todo : (k i : ℕ) → l < k → k ≤ depth → laws.look t.store k i ≡ stored t.hasher.hash xs k i
    pub counted : st.get_num_leaves t.store ≡ length (xs ++ leaves)
    pub from : start ≡ full l (length xs)
    pub to : start + n ≡ width l (length (xs ++ leaves))
    pub nonempty : 0 < n
    pub bounded : n ≤ length leaves
    pub counts : run_len ≡ n
    pub room : length leaves / 2 + 1 ≤ length t.scratch.1
    pub room_next : length leaves / 2 + 1 ≤ length t.scratch.0
    pub run :
        level_nodes leaves t.scratch.0 run_len l
        ≡ ok (tabulate (node_at t.hasher.hash (xs ++ leaves) l) start n)

  total-small : length (xs ++ leaves) ≤ 2 ^ 63
  total-small = le_trans fits (pow-le-pow_right {n = 2} (omega arith) {j = 63} (omega arith))

  module _ (t : MerkleTree S) (l start n run_len : ℕ) (v : Loop t l start n run_len) where
    abbrev hash : Node → Node → Node
    hash = t.hasher.hash

    -- The number of parents, and the parents.
    abbrev up : ℕ
    up = (start + n + 1) / 2 - start / 2

    abbrev pub parents : List Node
    parents = tabulate (node_at hash (xs ++ leaves) (suc l)) (start / 2) up

    up-length : length parents ≡ up
    up-length = length-tabulate (node_at hash (xs ++ leaves) (suc l)) (start / 2) up

    pub hash_level_ok :
        (left_partner : Node)
        → l < depth
        → (full l (length xs) % 2 ≡ 1 → left_partner ≡ node_at hash xs l (full l (length xs) - 1))
        → hash_level depth t.hasher t.zeros l left_partner start
            (tabulate (node_at hash (xs ++ leaves) l) start n)
            t.scratch.1
          ≡ ok parents
    hash_level_ok left_partner lt partner =
        hash_level-tabulate depth t.hasher t.zeros l left_partner (node_at hash (xs ++ leaves) l)
          v.is_tree.is_hasher
          (λ i. node_at-IsNode hash v.is_tree.is_hasher.hash-IsNode (xs ++ leaves) l i are_nodes)
          start n (zero_at hash l) t.scratch.1
          (zeros_index-zero_at depth t v.is_tree l (omega arith)) v.nonempty
          (λ odd.
            let odd' : full l (length xs) % 2 ≡ 1 = ap (λ k. k % 2) (sym v.from) ∙ odd in
            partner odd'
            ∙ sym (node_at_prefix hash xs leaves l (full l (length xs) - 1) (omega arith))
            ∙ ap (λ k. node_at hash (xs ++ leaves) l (k - 1)) (sym v.from))
          (λ _. sym (node_at_beyond hash (xs ++ leaves) l (start + n) (omega (arith, v.to))))
          (omega (arith, v.room, v.bounded, v.nonempty))

    pub parents-IsRun : l < depth → IsRun (laws.look t.store) (suc l) (start / 2) parents
    parents-IsRun lt = record {
      level_fits = omega arith;
      end_fits =
          omega (arith, up-length, width_le (suc l) (length (xs ++ leaves)), v.to, total-small);
      nonempty = omega (arith, up-length, v.nonempty);
      no_hole = λ i h.
          stored-no_hole hash xs leaves (laws.look t.store) (suc l)
            (λ j. v.todo (suc l) j (omega arith) (omega arith)) i (omega (arith, v.from));
      are_nodes = All-tabulate IsNode (node_at hash (xs ++ leaves) (suc l)) (start / 2) up (λ i.
          node_at-IsNode hash v.is_tree.is_hasher.hash-IsNode (xs ++ leaves) (suc l) i are_nodes);
    }

    pub parents_fit : start / 2 + length parents ≤ laws.capacity
    parents_fit =
        omega (arith, up-length, width_le (suc l) (length (xs ++ leaves)), v.to, fits, roomy)

    -- The tree before the write of a level: its parents are in the second buffer.
    abbrev pub hashed : MerkleTree S
    hashed = record t { scratch = (t.scratch.0, overwrite_prefix parents t.scratch.1) }

    -- The tree after a level: the store has its parents, and the buffers have swapped.
    abbrev pub raised : S → MerkleTree S
    raised s = record t { store = s; scratch = (overwrite_prefix parents t.scratch.1, t.scratch.0) }

    level_nodes_next :
        (s : S) → level_nodes leaves (raised s).scratch.0 (length parents) (suc l) ≡ ok parents
    unfolding level_nodes overwrite_prefix
    level_nodes_next s =
        let rest = drop (length parents) t.scratch.1 in
        let above : (suc l == 0) ≡ false = ground arith in
        rw (
          above,
          le→ltb (length (parents ++ rest)) (length parents)
              (omega (arith, length-append parents rest)),
          take-append parents rest (length parents) refl,
        )

    pub raised-Loop :
        (s : S)
        → l < depth
        → laws.IsValid s
        → ((k i : ℕ)
            → laws.look s k i ≡ write_run (laws.look t.store) (suc l) (start / 2) parents k i)
        → st.get_num_leaves s ≡ st.get_num_leaves t.store
        → Loop (raised s) (suc l) (start / 2) up (length parents)
    unfolding overwrite_prefix
    raised-Loop s lt valid look counted = record {
      is_tree = record {
        is_hasher = v.is_tree.is_hasher;
        front = v.is_tree.front;
        last = v.is_tree.last;
      };
      valid = valid;
      done = λ k i le. look k i ∙ elim (ℕ_discrete k (suc l)) [
        | yes same ↦ rw same (
            stored-write_run hash xs leaves (laws.look t.store) (suc l) (start / 2) up i
              (omega (arith, v.from)) (omega (arith, v.to, full-le-width l (length xs)))
              (v.todo (suc l) i (omega arith) (omega arith)))
        | no other ↦ ground (arith, v.done k i (omega arith))
      ];
      todo = λ k i above le. look k i ∙ ground (arith, v.todo k i (omega arith) le);
      counted = counted ∙ v.counted;
      from = omega (arith, v.from);
      to = omega (arith, v.to);
      nonempty = omega (arith, v.nonempty);
      bounded = omega (arith, v.bounded, v.nonempty);
      counts = up-length;
      room = v.room_next;
      room_next = omega (
        arith,
        v.room,
        length-append parents (drop (length parents) t.scratch.1),
        length-drop (length parents) t.scratch.1,
      );
      run = level_nodes_next s;
    }
