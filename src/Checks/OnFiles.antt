-- ===== src/Checks/OnFiles.antt =====
-- The tests of src/stores/file_store.rs, on an empty directory. The removal of the directory is
-- left out.
use rs_merkle_tree.Node.{as_bytes, node_eq}
use rs_merkle_tree.Run.{◌>>=◌, ◌>>◌, Run, ok, check, or_panic, ◌>>=◌}
use rs_merkle_tree.Base.{◌-◌, ◌^◌, ◌≡◌, refl, none, some, [], ◌∷◌, ◌==◌}
use rs_merkle_tree.Checks.Stores.{node, rejected, check_get}
use rs_merkle_tree.Checks.{after}
use rs_merkle_tree.Files
use rs_merkle_tree.Files.{file_store, FileStore, put, get, get_num_leaves}
use rs_merkle_tree.Files.Name.{level_file_name}
use rs_merkle_tree.Files.System.{Disk}

-- The directory of `temp_dir`, and `FileStore::new` on a directory of at most 3 levels.
abbrev empty_dir : Disk
empty_dir = record { contents = λ _. none; refusal = λ _. none }

abbrev open_dir : Disk → Run FileStore
open_dir disk = or_panic (Files.new 4 disk) >>= λ store. store

unfoldable put_get_roundtrip : Run (Unit {0})
put_get_roundtrip = do
  store ← open_dir empty_dir
  store ← after (put 0 0 (node 10 ∷ node 11 ∷ []) store)
  store ← after (put 1 0 (node 255 ∷ []) store)
  store ← after (put 1 0 (node 26 ∷ []) store)
  check (get_num_leaves store == 2)
  check_get store (0 ∷ 0 ∷ 1 ∷ []) (0 ∷ 1 ∷ 0 ∷ [])
      (some (node 10) ∷ some (node 11) ∷ some (node 26) ∷ [])
  store ← after (put 1 0 (node 28 ∷ node 27 ∷ []) store)
  store ← after (put 0 2 (node 12 ∷ []) store)
  check_get store (0 ∷ 1 ∷ 1 ∷ []) (2 ∷ 0 ∷ 1 ∷ [])
      (some (node 12) ∷ some (node 28) ∷ some (node 27) ∷ [])

unfoldable out_of_range_reads_are_none : Run (Unit {0})
out_of_range_reads_are_none = do
  store ← open_dir empty_dir
  store ← after (put 0 0 (node 10 ∷ []) store)
  store ← after (put 1 0 (node 26 ∷ []) store)
  check_get store (0 ∷ 1 ∷ 7 ∷ []) (1 ∷ 9 ∷ 0 ∷ []) (none ∷ none ∷ none ∷ [])

unfoldable runs_starting_past_the_prefix_are_rejected : Run (Unit {0})
runs_starting_past_the_prefix_are_rejected = do
  store ← open_dir empty_dir
  store ← after (put 0 0 (node 10 ∷ []) store)
  store ← rejected (put 0 2 (node 11 ∷ []) store)
  store ← rejected (put 0 (2 ^ 64 - 1) (node 12 ∷ []) store)
  store ← rejected (put 3 1 (node 13 ∷ []) store)
  check (get_num_leaves store == 1)
  store ← after (put 0 1 (node 11 ∷ []) store)
  check (get_num_leaves store == 2)

unfoldable empty_runs_are_accepted_and_change_nothing : Run (Unit {0})
empty_runs_are_accepted_and_change_nothing = do
  store ← open_dir empty_dir
  store ← after (put 0 0 [] store)
  store ← after (put 9 7 [] store)
  check (get_num_leaves store == 0)

unfoldable reopen_keeps_everything : Run (Unit {0})
reopen_keeps_everything = do
  store ← open_dir empty_dir
  store ← after (put 0 0 (node 10 ∷ node 11 ∷ []) store)
  store ← after (put 1 0 (node 26 ∷ []) store)
  store ← open_dir store.disk
  check (get_num_leaves store == 2)
  check_get store (1 ∷ []) (0 ∷ []) (some (node 26) ∷ [])
  store ← after (put 0 2 (node 12 ∷ []) store)
  store ← after (put 1 1 (node 27 ∷ []) store)
  check (get_num_leaves store == 3)
  check_get store (0 ∷ 1 ∷ []) (2 ∷ 1 ∷ []) (some (node 12) ∷ some (node 27) ∷ [])

-- They pass.
all_ok :
    (put_get_roundtrip ≡ ok tt)
    × (out_of_range_reads_are_none ≡ ok tt)
    × (runs_starting_past_the_prefix_are_rejected ≡ ok tt)
    × (empty_runs_are_accepted_and_change_nothing ≡ ok tt)
    × (reopen_keeps_everything ≡ ok tt)
unfolding put_get_roundtrip out_of_range_reads_are_none runs_starting_past_the_prefix_are_rejected
    empty_runs_are_accepted_and_change_nothing reopen_keeps_everything Files.new put get
    get_num_leaves Files.ensure_level Files.write_run_at Files.read_each Files.read_node
    level_file_name as_bytes node_eq
all_ok = (refl, refl, refl, refl, refl)
