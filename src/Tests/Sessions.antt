-- ===== src/Tests/Sessions.antt =====
-- The theorems on sequences of calls, at the samples of the other files.
use rs_merkle_tree.Session.Fresh.{files_from_empty}
use rs_merkle_tree.Session.Fresh.Databases.{sled_from_empty, rocksdb_from_empty, sqlite_from_empty}
use rs_merkle_tree.Sled
use rs_merkle_tree.RocksDb
use rs_merkle_tree.Sqlite
use rs_merkle_tree.Files
use rs_merkle_tree.Tree
use rs_merkle_tree.Session.Serves.{Serves}
use rs_merkle_tree.Tests.Interrupted
use rs_merkle_tree.Session.Follows.{Follows, run-Follows}
use rs_merkle_tree.Session.Agree.{run-agree}
use rs_merkle_tree.Session.Again.{
  sqlite_again, rocksdb_again, sled_again, files_again, files_again-Reopens, tree_again,
  tree_again-Reopens,
}
use rs_merkle_tree.Memory.{memory_store}
use rs_merkle_tree.Files.{file_store}
use rs_merkle_tree.Tests.OnDisk
use rs_merkle_tree.Tests.OnKeys
use rs_merkle_tree.Tests.Connection
use rs_merkle_tree.Tests
use rs_merkle_tree.KeyValue.{done}
use rs_merkle_tree.Sqlite.Laws.{sqlite_laws}
use rs_merkle_tree.Sqlite.{SqliteStore, sqlite_store}
use rs_merkle_tree.RocksDb.Laws.{rocksdb_laws}
use rs_merkle_tree.RocksDb.{rocksdb_store}
use rs_merkle_tree.Sled.Laws.{sled_laws}
use rs_merkle_tree.Sled.{SledStore, sled_store}
use rs_merkle_tree.Files.Laws.{file_laws}
use rs_merkle_tree.Files.{FileStore}
use rs_merkle_tree.Memory.Laws.{memory_laws}
use rs_merkle_tree.Memory.{MemoryStore}
use rs_merkle_tree.Tests.{
  hasher-IsHasher, pair-nodes, hasher, five, three, three-nodes, pair, pair-IsRun,
}
use rs_merkle_tree.Tree.{MerkleTree, MerkleProof}
use rs_merkle_tree.Session.Refines.{run-replay}
use rs_merkle_tree.Session.{
  Call, IsCall, run, replay, add, ask_root, ask_proof, count, check_proof, reopen, added, made,
  counted,
}
use rs_merkle_tree.Node.{zero_node}
use rs_merkle_tree.Run.{ok, leaf_index_out_of_bounds, tree_full, err}
use rs_merkle_tree.Base.{
  true, false, ◌≡◌, refl, none, some, List, [], ◌∷◌, arith, length, get_elem?, All,
}

-- A proof that `ask_proof` did not give.
abbrev forged : MerkleProof
forged = record { proof = []; leaf = zero_node; index = 0; root = zero_node }

-- A batch that fills the tree, one that does not fit, an index in range and one out of it, and two
-- openings.
abbrev calls : List Call
calls =
    ask_root
    ∷ reopen
    ∷ add three
    ∷ ask_root
    ∷ add pair
    ∷ ask_proof 6
    ∷ reopen
    ∷ ask_proof 9
    ∷ check_proof forged
    ∷ count
    ∷ []

calls-good : All IsCall calls
calls-good = (
  tt,
  (
    tt,
    (
      (three-nodes, omega arith),
      (tt, ((pair-nodes, omega arith), (tt, (tt, (tt, (tt, (tt, tt))))))),
    ),
  ),
)

-- What the list model gives for them: eight leaves, and these refusals.
replay-refusals :
    (length (replay hasher 3 calls five).0 ≡ 8)
    × (get_elem? (replay hasher 3 calls five).1 4 ≡ some (added (err (tree_full 3 8))))
    × (get_elem? (replay hasher 3 calls five).1 7
        ≡ some (made (err (leaf_index_out_of_bounds 9 8))))
    × (get_elem? (replay hasher 3 calls five).1 9 ≡ some (counted 8))
replay-refusals = (refl, refl, refl, refl)

run-replay_example :
    (u : MerkleTree MemoryStore) × (run (tree_again 3) 3 calls Tests.sample
      ≡ (u, (replay hasher 3 calls five).1))
    × Serves memory_laws 3 hasher u (replay hasher 3 calls five).0
run-replay_example =
    run-replay memory_laws 3 hasher (λ never. never) (tree_again 3) (omega arith)
      (tree_again-Reopens memory_laws 3 hasher (omega arith)) calls Tests.sample five
      (record { represents = Tests.sample-Represents; same = Tests.sample-hasher }) calls-good

-- The tree on disk and the one in memory.
run-agree_example :
    (run (files_again 3) 3 calls OnDisk.sample).1 ≡ (run (tree_again 3) 3 calls Tests.sample).1
run-agree_example =
    run-agree file_laws memory_laws 3 hasher (omega arith) (λ never. never) (λ never. never)
      (files_again 3) (tree_again 3) OnDisk.sample Tests.sample five calls
      (files_again-Reopens 3 hasher (omega arith))
      (tree_again-Reopens memory_laws 3 hasher (omega arith))
      (record { represents = OnDisk.sample_added.0; same = OnDisk.sample_added.1 })
      (record { represents = Tests.sample-Represents; same = Tests.sample-hasher }) calls-good

-- A database that takes one write and refuses the next one: the second call fails, and the root is
-- as it was.
run-Follows_example :
    Follows ⦃st = sled_store Interrupted.db⦄
      (sled_laws Interrupted.laws)
      2
      hasher
      (tree_again 2)
      (ask_root ∷ add pair ∷ ask_root ∷ [])
      Interrupted.start
      []
run-Follows_example =
    run-Follows ⦃st = sled_store Interrupted.db⦄ (sled_laws Interrupted.laws) 2 hasher
      (tree_again 2) (omega arith)
      (tree_again-Reopens ⦃st = sled_store Interrupted.db⦄ (sled_laws Interrupted.laws) 2 hasher
        (omega arith))
      (ask_root ∷ add pair ∷ ask_root ∷ []) Interrupted.start []
      (record { represents = Interrupted.start-Represents; same = refl })
      (tt, ((pair-nodes, omega arith), (tt, tt)))

files_from_empty_example :
    (s : FileStore) × (t : MerkleTree FileStore) × (u : MerkleTree FileStore) × (Files.new 1
        OnDisk.bare
      ≡ some (ok s))
    × (Tree.new 3 hasher s ≡ ok t)
    × (run (files_again 3) 3 calls t ≡ (u, (replay hasher 3 calls []).1))
    × Serves file_laws 3 hasher u (replay hasher 3 calls []).0
files_from_empty_example =
    files_from_empty 3 hasher OnDisk.bare calls (omega arith) (omega arith) hasher-IsHasher
      (λ c. refl) (λ l. refl) calls-good

-- A database that refuses its second write, and one that refuses none.
sled_from_empty_example :
    (s : SledStore Interrupted.Entries) × (t : MerkleTree (SledStore Interrupted.Entries))
    × (Sled.new Interrupted.db Interrupted.clear (2, λ _. none) ≡ ok s)
    × (Tree.new 3 hasher s ≡ ok t)
    × Follows ⦃st = sled_store Interrupted.db⦄
        (sled_laws Interrupted.laws)
        3
        hasher
        (sled_again Interrupted.db Interrupted.clear 3)
        calls
        t
        []
sled_from_empty_example =
    sled_from_empty Interrupted.laws (2, λ _. none) tt 3 hasher calls (omega arith) (omega arith)
      hasher-IsHasher calls-good refl Interrupted.clear
      (λ d sound. ((d.0, λ _. none), refl, tt, λ key. refl))

rocksdb_from_empty_example :
    (s : SledStore OnKeys.Entries) × (t : MerkleTree (SledStore OnKeys.Entries)) × (RocksDb.new
        OnKeys.db
        (λ _. done tt)
        (true, λ _. none)
      ≡ ok s)
    × (Tree.new 3 hasher s ≡ ok t)
    × Follows ⦃st = rocksdb_store OnKeys.db OnKeys.multi_get⦄
        (rocksdb_laws OnKeys.db OnKeys.multi_get (λ d ks. refl) OnKeys.laws)
        3
        hasher
        (rocksdb_again OnKeys.db (λ _. done tt) 3)
        calls
        t
        []
rocksdb_from_empty_example =
    rocksdb_from_empty OnKeys.laws (true, λ _. none) refl 3 hasher calls (omega arith) (omega arith)
      hasher-IsHasher calls-good (λ key. refl) OnKeys.multi_get (λ d ks. refl) (λ _. done tt)
      (λ d sound. refl)

abbrev no_tables : Connection.File
no_tables = record {
  commits = true;
  tables = false;
  begun = false;
  stored = Connection.no_rows;
  pending = Connection.no_rows;
}

sqlite_from_empty_example :
    (s : SqliteStore Connection.File) × (t : MerkleTree (SqliteStore Connection.File)) × (Sqlite.new
        Connection.db no_tables
      ≡ ok s)
    × (Tree.new 3 hasher s ≡ ok t)
    × Follows ⦃st = sqlite_store Connection.db⦄
        (sqlite_laws Connection.laws)
        3
        hasher
        (sqlite_again Connection.db 3)
        calls
        t
        []
sqlite_from_empty_example =
    sqlite_from_empty Connection.laws Connection.opening no_tables 3 hasher calls refl refl
      (omega arith) (omega arith) hasher-IsHasher calls-good
