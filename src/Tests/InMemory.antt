-- ===== src/Tests/InMemory.antt =====
-- The theorems on `MemoryStore` at the new store.
use rs_merkle_tree.Tests.{pair, pair-IsRun}
use rs_merkle_tree.Base.{max, ◌==◌, if◌then◌else◌, ℕ, ◌+◌, ◌≡◌, arith}
use rs_merkle_tree.Run.{past_prefix, store_error, err}
use rs_merkle_tree.Run.Method.{Returns}
use rs_merkle_tree.Store.{write_run}
use rs_merkle_tree.Memory
use rs_merkle_tree.Memory.{get_num_leaves, get, put, look, MemoryStore, memory_store}
use rs_merkle_tree.Memory.Laws.{put-past_prefix, put_ok, look-new}

put_ok_example :
    Returns
      (λ s' _.
        Unit
        × ((l i : ℕ) → look s' l i ≡ write_run (look Memory.new) 0 0 pair l i)
        × (get_num_leaves s' ≡ (
            if 0 == 0 then max (get_num_leaves Memory.new) (0 + 2) else get_num_leaves Memory.new)))
      (put 0 0 pair Memory.new)
put_ok_example = put_ok Memory.new 0 0 pair (pair-IsRun (look Memory.new))

put-past_prefix_example :
    ((put 0 1 pair Memory.new).1 ≡ err (store_error (past_prefix 0 1 0)))
    × ((l i : ℕ) → look (put 0 1 pair Memory.new).0 l i ≡ look Memory.new l i)
put-past_prefix_example =
    put-past_prefix Memory.new 0 1 0 pair (omega arith) (omega arith) (λ i h. absurd (omega arith))
      (look-new 0 0)
