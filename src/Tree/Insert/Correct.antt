-- ===== src/Tree/Insert/Correct.antt =====
-- `add_leaves` appends its leaves to the tree, and refuses those that do not fit.
use native.Mathlib.Nat.{pow-le-pow_right}
use rs_merkle_tree.Base.{
  lt→ltb, le→ltb, true, false, ltb, append-nil, length-replicate, replicate, max, All-append,
  length-append, ℕ, ◌+◌, ◌-◌, ◌/◌, ◌^◌, ◌≤◌, ◌<◌, ◌≡◌, List, [], ◌∷◌, ◌++◌, length, arith, ap, ◌∙◌,
  sym, refl, All,
}
use rs_merkle_tree.Run.{ok, err, tree_full}
use rs_merkle_tree.Run.Method.{Returns, Ends, succeeds, Ends-Returns}
use rs_merkle_tree.Node.{Node, IsNode, zero_node}
use rs_merkle_tree.Store.{Store, StoreLaws, write_run, IsRun}
use rs_merkle_tree.Tree.{MerkleTree, as_u32, add64, bit64}
use rs_merkle_tree.Tree.Spec.{Represents}
use rs_merkle_tree.Tree.Fetch.{fetch_list}
use rs_merkle_tree.Tree.Fetch.Partners.{
  fetch_partners, length-fetch_list, fetch_list-AreWords, fetch_list-le,
}
use rs_merkle_tree.Tree.Insert.Stored.{leaves-tabulate, stored-write_run, stored-no_hole}
use rs_merkle_tree.Tree.Insert.Levels.{Loop, zeros_index-zero_at}
use rs_merkle_tree.Tree.Insert.Ends.{Interrupted, add_levels-Ends, Ends-on_store}
use rs_merkle_tree.Tree.Insert.{grow, level_nodes, insert_leaves, add_leaves}

grow-le : (size : ℕ) (buf : List Node) → size ≤ length (grow size buf)
unfolding grow
grow-le size buf =
    let more = size - length buf in
    ground (arith, length-append buf (replicate more zero_node), length-replicate more zero_node)

module _ {S : Type 0} ⦃st : Store S⦄ (laws : StoreLaws st) (depth : ℕ) (small : depth < 64)
    (t : MerkleTree S) (xs leaves : List Node) (r : Represents laws depth t xs) where
  capacity-small : 2 ^ depth ≤ 2 ^ 63
  capacity-small = pow-le-pow_right {n = 2} (omega arith) {j = 63} (omega arith)

  capacity : bit64 depth ≡ 2 ^ depth
  capacity = ap (λ k. 2 ^ k) (omega arith)

  module _ (some_leaf : 0 < length leaves) (fits : length xs + length leaves ≤ 2 ^ depth)
      (are_nodes : All IsNode leaves) where
    all_fit : length (xs ++ leaves) ≤ 2 ^ depth
    all_fit = omega (arith, length-append xs leaves, fits)

    all-IsNode : All IsNode (xs ++ leaves)
    all-IsNode = All-append IsNode xs leaves r.are_nodes are_nodes

    leaves-IsRun : IsRun (laws.look t.store) 0 (length xs) leaves
    leaves-IsRun = record {
      level_fits = omega arith;
      end_fits = omega (arith, fits, capacity-small);
      nonempty = some_leaf;
      no_hole = λ i h.
          stored-no_hole t.hasher.hash xs leaves (laws.look t.store) 0
            (λ j. r.holds 0 j (omega arith)) i h;
      are_nodes = are_nodes;
    }

    -- The tree when the leaves are stored and the buffers have grown.
    abbrev seeded : S → MerkleTree S
    seeded s =
        let size = length leaves / 2 + 1 in
        record t { store = s; scratch = (grow size t.scratch.0, grow size t.scratch.1) }

    seeded-Loop :
        (s : S)
        → laws.IsValid s
        → ((k i : ℕ) → laws.look s k i ≡ write_run (laws.look t.store) 0 (length xs) leaves k i)
        → st.get_num_leaves s ≡ max (st.get_num_leaves t.store) (length xs + length leaves)
        → Loop laws depth small xs leaves some_leaf all_fit r.roomy all-IsNode
            (seeded s)
            0
            (length xs)
            (length leaves)
            (length leaves)
    unfolding level_nodes
    seeded-Loop s valid look counted = record {
      is_tree = record {
        is_hasher = r.is_tree.is_hasher;
        front = r.is_tree.front;
        last = r.is_tree.last;
      };
      valid = valid;
      done = λ k i le.
          let ground_level : k ≡ 0 = omega arith in
          rw ground_level (
            look 0 i
            ∙ ap (λ run. write_run (laws.look t.store) 0 (length xs) run 0 i)
                (leaves-tabulate t.hasher.hash xs leaves)
            ∙ stored-write_run t.hasher.hash xs leaves (laws.look t.store) 0 (length xs)
                (length leaves) i refl (sym (length-append xs leaves)) (r.holds 0 i (omega arith)));
      todo = λ k i above le. look k i ∙ ground (arith, r.holds k i le);
      counted = omega (arith, counted, r.counted, length-append xs leaves);
      from = refl;
      to = sym (length-append xs leaves);
      nonempty = some_leaf;
      bounded = omega arith;
      counts = refl;
      room = grow-le (length leaves / 2 + 1) t.scratch.1;
      room_next = grow-le (length leaves / 2 + 1) t.scratch.0;
      run = ap ok (leaves-tabulate t.hasher.hash xs leaves);
    }

    insert_leaves-Ends :
        Ends
          (λ t' _. Represents laws depth t' (xs ++ leaves) × (t'.hasher ≡ t.hasher))
          (λ t' _. (level : ℕ) × Interrupted laws depth xs leaves t' level × (t'.hasher ≡ t.hasher))
          (insert_leaves depth leaves (length xs) t)
    unfolding insert_leaves
    insert_leaves-Ends =
        let (partners, filled, size, are_partners) =
          fetch_partners t.hasher.hash xs depth t.zeros (laws.look t.store) small
            (zeros_index-zero_at depth t r.is_tree) r.holds in
        let levels = (fetch_list depth 0 (length xs)).0 in
        let indices = (fetch_list depth 0 (length xs)).1 in
        rw
          (
            laws.get_ok t.store levels indices r.valid
                (fetch_list-AreWords depth 0 (length xs) (omega (arith, r.fits, capacity-small)))
                (omega (arith, fetch_list-le depth 0 (length xs)))
                (length-fetch_list depth 0 (length xs)),
            filled,
          )
          (Ends-on_store t _
            (laws.put_ends t.store 0 (length xs) leaves r.valid leaves-IsRun
              (omega (arith, fits, r.roomy)))
            (λ s _ (valid, look, counted).
              add_levels-Ends laws depth small xs leaves some_leaf all_fit r.roomy all-IsNode
                partners (seeded s) 0 (length xs) (length leaves) (length leaves)
                (seeded-Loop s valid look counted) (omega (arith, size)) are_partners)
            (λ s _ (valid, same, count, refused). (
              0,
              record {
                is_tree = record {
                  is_hasher = r.is_tree.is_hasher;
                  front = r.is_tree.front;
                  last = r.is_tree.last;
                };
                valid = valid;
                level_fits = omega arith;
                below = λ k i below. absurd (omega arith);
                above = λ k i above le. same k i ∙ r.holds k i le;
                counted = count ∙ r.counted ∙ ground arith;
                refused = refused;
              },
              refl,
            )))

module _ {S : Type 0} ⦃st : Store S⦄ (laws : StoreLaws st) (depth : ℕ) (small : depth < 64)
    (t : MerkleTree S) (xs : List Node) (r : Represents laws depth t xs) where
  -- In a tree of depth below 64 that holds the leaves `xs`: when the new leaves fit into its
  -- `2 ^ DEPTH` places, `add_leaves` either returns, and the tree then holds `xs` followed by the
  -- new leaves, with every ancestor up to the root; or it fails, since the store refuses the write
  -- of some level, and then the levels below that one hold the nodes of all of the leaves, it and
  -- the levels above it those of `xs`, and the new leaves are counted unless that level is 0. The
  -- hasher stays. It does not panic.
  pub add_leaves-Ends :
      (leaves : List Node)
      → length xs + length leaves ≤ 2 ^ depth
      → All IsNode leaves
      → Ends
          (λ t' _. Represents laws depth t' (xs ++ leaves) × (t'.hasher ≡ t.hasher))
          (λ t' _. (level : ℕ) × Interrupted laws depth xs leaves t' level × (t'.hasher ≡ t.hasher))
          (add_leaves depth leaves t)
  unfolding add_leaves
  add_leaves-Ends [] fits are_nodes = succeeds (rw (append-nil xs) r, refl)
  add_leaves-Ends (leaf ∷ leaves) fits are_nodes =
      let bound = capacity-small laws depth small t xs (leaf ∷ leaves) r in
      let places = capacity laws depth small t xs (leaf ∷ leaves) r in
      let room : ltb (bit64 depth) (add64 (length xs) (length (leaf ∷ leaves))) ≡ false =
        rw places (le→ltb _ _ (omega (arith, bound))) in
      rw (r.counted, room)
        (insert_leaves-Ends laws depth small t xs (leaf ∷ leaves) r (omega arith) fits are_nodes)

  -- In a tree of depth below 64 that holds the leaves `xs`, over a store that refuses no write:
  -- when the new leaves fit into its `2 ^ DEPTH` places, `add_leaves` returns, and the tree then
  -- holds `xs` followed by the new leaves, with every ancestor up to the root.
  pub add_leaves-Represents :
      (leaves : List Node)
      → ¬ laws.Refuses
      → length xs + length leaves ≤ 2 ^ depth
      → All IsNode leaves
      → Returns
          (λ t' _. Represents laws depth t' (xs ++ leaves) × (t'.hasher ≡ t.hasher))
          (add_leaves depth leaves t)
  add_leaves-Represents leaves steady fits are_nodes =
      Ends-Returns (add_leaves-Ends leaves fits are_nodes) (λ t' e q. steady q.1.refused)

  -- In a tree of depth below 64: when the new leaves do not fit into its `2 ^ DEPTH` places,
  -- `add_leaves` fails with the depth and the capacity, and the tree is as it was. A slice has
  -- fewer than `2 ^ 63` nodes.
  pub add_leaves-tree_full :
      (leaves : List Node)
      → 2 ^ depth < length xs + length leaves
      → 0 < length leaves
      → length leaves < 2 ^ 63
      → add_leaves depth leaves t ≡ (t, err (tree_full depth (2 ^ depth)))
  unfolding add_leaves
  add_leaves-tree_full [] over some_leaf bounded = absurd (omega arith)
  add_leaves-tree_full (leaf ∷ leaves) over some_leaf bounded =
      let bound = capacity-small laws depth small t xs (leaf ∷ leaves) r in
      let places = capacity laws depth small t xs (leaf ∷ leaves) r in
      let narrow : as_u32 depth ≡ depth = omega arith in
      let no_room : ltb (bit64 depth) (add64 (length xs) (length (leaf ∷ leaves))) ≡ true =
        rw places (lt→ltb _ _ (omega (arith, bound, r.fits))) in
      rw (r.counted, no_room, places, narrow)
