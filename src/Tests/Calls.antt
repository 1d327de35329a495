-- ===== src/Tests/Calls.antt =====
-- The theorems on sequences of calls, at a batch that fits and one that does not.
use rs_merkle_tree.Tree.Insert.Correct.{add_leaves-tree_full}
use rs_merkle_tree.Run.Method.{Returns, Returns}
use rs_merkle_tree.Node.{Node}
use rs_merkle_tree.Base.{ap, ℕ, ◌+◌, ◌^◌, ◌≤◌, some, get_elem?, ◌≡◌, arith}
use rs_merkle_tree.Tests.{sample, sample-Represents, three, three-nodes, five, five-nodes}
use rs_merkle_tree.Memory.{get_num_leaves, MemoryStore, memory_store}
use rs_merkle_tree.Memory.Laws.{memory_laws}
use rs_merkle_tree.Tree.{MerkleTree}
use rs_merkle_tree.Tree.Insert.{add_leaves}
use rs_merkle_tree.Tree.Query.{num_leaves}
use rs_merkle_tree.Tree.Reach.{Reaches-accepts, Shows, start, calls}

-- The five leaves that do not fit are refused, and three still fit.
abbrev refused : MerkleTree MemoryStore
refused = (add_leaves 3 five sample).0

room_left : num_leaves refused + 3 ≤ 2 ^ 3
unfolding num_leaves
room_left =
    let full =
      add_leaves-tree_full memory_laws 3 (omega arith) sample five sample-Represents five
        (omega arith) (omega arith) (omega arith) in
    let same : refused ≡ sample = ap (λ r. r.0) full in
    omega (arith, ap (λ u. get_num_leaves u.store) same, sample-Represents.counted)

Reaches-accepts_example :
    Returns
      (λ u' _.
        (num_leaves u' ≡ num_leaves refused + 3)
        × ((j : ℕ) (leaf : Node)
            → get_elem? three j ≡ some leaf
            → Shows memory_laws 3 (omega arith) (λ never. never) u' (num_leaves refused + j) leaf))
      (add_leaves 3 three refused)
Reaches-accepts_example =
    Reaches-accepts memory_laws 3 (omega arith) (λ never. never) sample refused five three
      sample-Represents (calls _ five start five-nodes (omega arith)) three-nodes room_left
