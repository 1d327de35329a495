-- ===== src/Checks/OnMemory.antt =====
-- The tests of src/stores/memory_store.rs.
use rs_merkle_tree.Node.{node_eq}
use rs_merkle_tree.Run.{◌>>=◌, ◌>>◌, Run, ok, check}
use rs_merkle_tree.Base.{◌≡◌, refl, some, [], ◌∷◌, ◌==◌}
use rs_merkle_tree.Checks.Stores.{node, rejected, check_get}
use rs_merkle_tree.Checks.{after}
use rs_merkle_tree.Memory
use rs_merkle_tree.Memory.{put, get_num_leaves, memory_store}

unfoldable put_get_roundtrip : Run (Unit {0})
put_get_roundtrip = do
  store ← after (put 0 0 (node 10 ∷ node 11 ∷ node 12 ∷ node 13 ∷ []) Memory.new)
  store ← after (put 1 0 (node 170 ∷ node 187 ∷ []) store)
  store ← after (put 2 0 (node 255 ∷ []) store)
  check (get_num_leaves store == 4)
  check_get store (0 ∷ 0 ∷ 0 ∷ 0 ∷ 1 ∷ 1 ∷ 2 ∷ []) (0 ∷ 1 ∷ 2 ∷ 3 ∷ 0 ∷ 1 ∷ 0 ∷ []) (
      some (node 10)
      ∷ some (node 11)
      ∷ some (node 12)
      ∷ some (node 13)
      ∷ some (node 170)
      ∷ some (node 187)
      ∷ some (node 255)
      ∷ [])

unfoldable runs_may_rewrite_the_tail_and_extend_it : Run (Unit {0})
runs_may_rewrite_the_tail_and_extend_it = do
  store ← after (put 0 0 (node 10 ∷ node 11 ∷ []) Memory.new)
  store ← after (put 0 1 (node 187 ∷ node 12 ∷ node 13 ∷ []) store)
  check (get_num_leaves store == 4)
  check_get store (0 ∷ 0 ∷ 0 ∷ 0 ∷ []) (0 ∷ 1 ∷ 2 ∷ 3 ∷ [])
      (some (node 10) ∷ some (node 187) ∷ some (node 12) ∷ some (node 13) ∷ [])
  store ← rejected (put 0 5 (node 14 ∷ []) store)
  store ← rejected (put 4 1 (node 14 ∷ []) store)
  ok tt

-- They pass.
all_ok : (put_get_roundtrip ≡ ok tt) × (runs_may_rewrite_the_tail_and_extend_it ≡ ok tt)
unfolding put_get_roundtrip runs_may_rewrite_the_tail_and_extend_it put get_num_leaves Memory.get
    Memory.look Memory.new node_eq
all_ok = (refl, refl)
