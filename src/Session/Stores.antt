-- ===== src/Session/Stores.antt =====
-- Sequences of calls over each store on disk, opened again with the `new` of the store and
-- `MerkleTree::new`.
use rs_merkle_tree.Session.Refines.{run-replay}
use rs_merkle_tree.Session.Follows.{Follows, run-Follows}
use rs_merkle_tree.Session.Serves.{Serves}
use rs_merkle_tree.Session.Again.{
  files_again, sled_again, rocksdb_again, sqlite_again, files_again-Reopens, sled_again-Reopens,
  rocksdb_again-Reopens, sqlite_again-Reopens,
}
use rs_merkle_tree.Hasher.{Hasher}
use rs_merkle_tree.Session.{Call, IsCall, run, replay}
use rs_merkle_tree.KeyValue.{Database, DatabaseLaws, Key, Reply, done}
use rs_merkle_tree.Node.{Node}
use rs_merkle_tree.Base.{All, Option, none, map, ℕ, ◌<◌, ◌≡◌, List}
use rs_merkle_tree.Files.{FileStore, file_store}
use rs_merkle_tree.Files.Laws.{file_laws}
use rs_merkle_tree.Sled.{SledStore, sled_store}
use rs_merkle_tree.Sled.Laws.{sled_laws}
use rs_merkle_tree.RocksDb.{rocksdb_store}
use rs_merkle_tree.RocksDb.Laws.{rocksdb_laws}
use rs_merkle_tree.Sqlite.{Connection, SqliteStore, sqlite_store}
use rs_merkle_tree.Sqlite.Valid.{ConnectionLaws}
use rs_merkle_tree.Sqlite.Laws.{sqlite_laws}
use rs_merkle_tree.Sqlite.Reopen.{OpenLaws}
use rs_merkle_tree.Tree.{MerkleTree}

-- Of a tree of positive depth below 64 over a `FileStore`, that holds the leaves `xs`: every
-- sequence of calls (batches of nodes that fit or do not, `root`, proofs of any index,
-- `num_leaves`, checks of any proofs), with the store opened again on its directory and a tree over
-- it any number of times in between, gives the answers that the calls have over the list of the
-- leaves, and ends with a tree that holds the leaves of that list.
pub files_session :
    (depth : ℕ) (hasher : Hasher) (calls : List Call) (t : MerkleTree FileStore) (xs : List Node)
    → 0 < depth
    → depth < 64
    → Serves file_laws depth hasher t xs
    → All IsCall calls
    → (u : MerkleTree FileStore) × (run (files_again depth) depth calls t
        ≡ (u, (replay hasher depth calls xs).1))
      × Serves file_laws depth hasher u (replay hasher depth calls xs).0
files_session depth hasher calls t xs positive small =
    run-replay file_laws depth hasher (λ never. never) (files_again depth) small
      (files_again-Reopens depth hasher positive) calls t xs

module _ {D : Type 0} {db : Database D} (laws : DatabaseLaws db) where
  -- Of a tree of positive depth below 64 over a `SledStore` with a lawful database, that holds the
  -- leaves `xs`, where clearing a sound database empties it: every sequence of calls (batches of
  -- nodes that fit or do not, `root`, proofs of any index, `num_leaves`, checks of any proofs),
  -- with the store opened again on its database and a tree over it any number of times in between,
  -- answers as it does over the list of the leaves, as long as the database takes the writes; an
  -- `add` of which it refuses a write fails, and either the calls go on as if it had not been
  -- there, or the root is as before while the leaves are counted, and the comparison ends.
  pub sled_session :
      (clear : D → D × Reply (Unit {0}))
      → ((d : D)
          → laws.IsSound d
          → (d' : D) × (clear d ≡ (d', done tt))
            × laws.IsSound d'
            × ((key : Key) → laws.entries d' key ≡ none))
      → (depth : ℕ) (hasher : Hasher) (calls : List Call) (t : MerkleTree (SledStore D))
        (xs : List Node)
      → 0 < depth
      → depth < 64
      → Serves (sled_laws laws) depth hasher t xs
      → All IsCall calls
      → Follows ⦃st = sled_store db⦄
          (sled_laws laws)
          depth
          hasher
          (sled_again db clear depth)
          calls
          t
          xs
  sled_session clear clear_ok depth hasher calls t xs positive small =
      run-Follows ⦃st = sled_store db⦄ (sled_laws laws) depth hasher (sled_again db clear depth)
        small (sled_again-Reopens laws depth hasher positive clear clear_ok) calls t xs

  -- Of a tree of positive depth below 64 over a `RocksDbStore` with a lawful database, that holds
  -- the leaves `xs`, where `multi_get` answers each key as `get` does and the flush of a sound
  -- database succeeds: every sequence of calls (batches of nodes that fit or do not, `root`, proofs
  -- of any index, `num_leaves`, checks of any proofs), with the store opened again on its database
  -- and a tree over it any number of times in between, answers as it does over the list of the
  -- leaves, as long as the database takes the writes; an `add` of which it refuses a write fails,
  -- and either the calls go on as if it had not been there, or the root is as before while the
  -- leaves are counted, and the comparison ends.
  pub rocksdb_session :
      (multi_get : D → List Key → List (Reply (Option (List ℕ))))
      → (one_by_one : (d : D) (ks : List Key) → multi_get d ks ≡ map (db.get d) ks)
      → (flush : D → Reply (Unit {0})) → ((d : D) → laws.IsSound d → flush d ≡ done tt)
      → (depth : ℕ) (hasher : Hasher) (calls : List Call) (t : MerkleTree (SledStore D))
        (xs : List Node)
      → 0 < depth
      → depth < 64
      → Serves (rocksdb_laws db multi_get one_by_one laws) depth hasher t xs
      → All IsCall calls
      → Follows ⦃st = rocksdb_store db multi_get⦄
          (rocksdb_laws db multi_get one_by_one laws)
          depth
          hasher
          (rocksdb_again db flush depth)
          calls
          t
          xs
  rocksdb_session multi_get one_by_one flush flush_ok depth hasher calls t xs positive small =
      run-Follows ⦃st = rocksdb_store db multi_get⦄ (rocksdb_laws db multi_get one_by_one laws)
        depth hasher (rocksdb_again db flush depth) small
        (rocksdb_again-Reopens laws depth hasher positive multi_get one_by_one flush flush_ok) calls
        t xs

-- Of a tree of positive depth below 64 over a `SqliteStore` with a lawful connection, that holds
-- the leaves `xs`: every sequence of calls (batches of nodes that fit or do not, `root`, proofs of
-- any index, `num_leaves`, checks of any proofs), with the store opened again on its database and a
-- tree over it any number of times in between, answers as it does over the list of the leaves, as
-- long as the transactions succeed; an `add` with one that fails gives an error, and either the
-- calls go on as if it had not been there, or the root is as before while the leaves are counted,
-- and the comparison ends.
pub sqlite_session :
    {C : Type 0} {db : Connection C} (laws : ConnectionLaws db) (opening : OpenLaws laws)
    (depth : ℕ) (hasher : Hasher) (calls : List Call) (t : MerkleTree (SqliteStore C))
    (xs : List Node)
    → 0 < depth
    → depth < 64
    → Serves (sqlite_laws laws) depth hasher t xs
    → All IsCall calls
    → Follows ⦃st = sqlite_store db⦄
        (sqlite_laws laws)
        depth
        hasher
        (sqlite_again db depth)
        calls
        t
        xs
sqlite_session {db = db} laws opening depth hasher calls t xs positive small =
    run-Follows ⦃st = sqlite_store db⦄ (sqlite_laws laws) depth hasher (sqlite_again db depth) small
      (sqlite_again-Reopens laws opening depth hasher positive) calls t xs
