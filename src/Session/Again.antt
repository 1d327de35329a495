-- ===== src/Session/Again.antt =====
-- How a store and the tree over it are opened again: the `new` of each store, and then
-- `MerkleTree::new`.
use rs_merkle_tree.Session.Serves.{Serves, Reopens}
use rs_merkle_tree.Durable.{
  new_over, files_reopened, sled_reopened, rocksdb_reopened, sqlite_reopened,
}
use rs_merkle_tree.Hasher.{Hasher}
use rs_merkle_tree.KeyValue.{Database, DatabaseLaws, Key, Reply, done}
use rs_merkle_tree.Store.{Store, StoreLaws}
use rs_merkle_tree.Node.{Node}
use rs_merkle_tree.Run.{◌>>=◌, Run, panic, unwrap_or, ok}
use rs_merkle_tree.Base.{refl, suc, ap, Option, none, map, arith, ℕ, ◌<◌, ◌≡◌, ◌∙◌, List, length}
use rs_merkle_tree.Tree
use rs_merkle_tree.Files
use rs_merkle_tree.Files.{FileStore, file_store}
use rs_merkle_tree.Files.Laws.{file_laws}
use rs_merkle_tree.Sled
use rs_merkle_tree.Sled.{SledStore, sled_store}
use rs_merkle_tree.Sled.Laws.{sled_laws}
use rs_merkle_tree.RocksDb
use rs_merkle_tree.RocksDb.{rocksdb_store}
use rs_merkle_tree.RocksDb.Laws.{rocksdb_laws}
use rs_merkle_tree.Sqlite
use rs_merkle_tree.Sqlite.{Connection, SqliteStore, sqlite_store}
use rs_merkle_tree.Sqlite.Valid.{ConnectionLaws}
use rs_merkle_tree.Sqlite.Laws.{sqlite_laws}
use rs_merkle_tree.Sqlite.Reopen.{OpenLaws}
use rs_merkle_tree.Tree.{MerkleTree}
use rs_merkle_tree.Tree.Create.{new-hasher}
use rs_merkle_tree.Tree.Spec.{Represents}

-- Opening the store and then the tree.
opened_again :
    {S : Type 0} ⦃st : Store S⦄ (laws : StoreLaws st) (depth : ℕ) (hasher : Hasher)
    (t : MerkleTree S) (xs : List Node) (store : Run S) (s : S) (t' : MerkleTree S)
    → t.hasher ≡ hasher
    → store ≡ ok s
    → Tree.new depth t.hasher s ≡ ok t'
    → Represents laws depth t' xs
    → (t' : MerkleTree S) × ((store >>= Tree.new depth t.hasher) ≡ ok t')
      × Serves laws depth hasher t' xs
opened_again laws depth hasher t xs store s t' same opened made r = (
  t',
  rw opened made,
  record { represents = r; same = new-hasher depth t.hasher s t' made ∙ same },
)

-- A tree made over the store of another one.
abbrev pub tree_again : {S : Type 0} → ℕ → MerkleTree S → Run (MerkleTree S)
tree_again depth t = Tree.new depth t.hasher t.store

pub tree_again-Reopens :
    {S : Type 0} ⦃st : Store S⦄ (laws : StoreLaws st) (depth : ℕ) (hasher : Hasher)
    → 0 < depth
    → Reopens laws depth hasher (tree_again depth)
tree_again-Reopens laws depth hasher positive t xs s =
    let (t', made, r') =
      new_over laws depth positive t xs s.represents t.store s.represents.valid refl
        (λ l i h. refl) in
    opened_again laws depth hasher t xs (ok t.store) t.store t' s.same refl made r'

-- `FileStore::new` is given fuel for one round more than the store has levels; without enough of
-- it there would be no answer, which counts as a panic.
abbrev pub files_again : ℕ → MerkleTree FileStore → Run (MerkleTree FileStore)
files_again depth t =
    unwrap_or (Files.new (suc (length t.store.files)) t.store.disk) panic
    >>= Tree.new depth t.hasher

pub files_again-Reopens :
    (depth : ℕ) (hasher : Hasher) → 0 < depth → Reopens file_laws depth hasher (files_again depth)
files_again-Reopens depth hasher positive t xs s =
    let (store, t', opened, made, r') =
      files_reopened depth (suc (length t.store.files)) t xs positive s.represents (omega arith) in
    opened_again file_laws depth hasher t xs
      (unwrap_or (Files.new (suc (length t.store.files)) t.store.disk) panic) store t' s.same
      (ap (λ o. unwrap_or o panic) opened) made r'

abbrev pub sled_again :
    {D : Type 0}
    → Database D
    → (D → D × Reply (Unit {0}))
    → ℕ
    → MerkleTree (SledStore D)
    → Run (MerkleTree (SledStore D))
sled_again db clear depth t = Sled.new db clear t.store.db >>= Tree.new depth t.hasher

abbrev pub rocksdb_again :
    {D : Type 0}
    → Database D
    → (D → Reply (Unit {0}))
    → ℕ
    → MerkleTree (SledStore D)
    → Run (MerkleTree (SledStore D))
rocksdb_again db flush depth t = RocksDb.new db flush t.store.db >>= Tree.new depth t.hasher

abbrev pub sqlite_again :
    {C : Type 0} → Connection C → ℕ → MerkleTree (SqliteStore C) → Run (MerkleTree (SqliteStore C))
sqlite_again db depth t = Sqlite.new db t.store.conn >>= Tree.new depth t.hasher

module _ {D : Type 0} {db : Database D} (laws : DatabaseLaws db) (depth : ℕ) (hasher : Hasher)
    (positive : 0 < depth) where
  pub sled_again-Reopens :
      (clear : D → D × Reply (Unit {0}))
      → ((d : D)
          → laws.IsSound d
          → (d' : D) × (clear d ≡ (d', done tt))
            × laws.IsSound d'
            × ((key : Key) → laws.entries d' key ≡ none))
      → Reopens ⦃st = sled_store db⦄ (sled_laws laws) depth hasher (sled_again db clear depth)
  sled_again-Reopens clear clear_ok t xs s =
      let (store, t', opened, made, r') =
        sled_reopened laws clear clear_ok depth t xs positive s.represents in
      opened_again ⦃st = sled_store db⦄ (sled_laws laws) depth hasher t xs
        (Sled.new db clear t.store.db) store t' s.same opened made r'

  pub rocksdb_again-Reopens :
      (multi_get : D → List Key → List (Reply (Option (List ℕ))))
      → (one_by_one : (d : D) (ks : List Key) → multi_get d ks ≡ map (db.get d) ks)
      → (flush : D → Reply (Unit {0})) → ((d : D) → laws.IsSound d → flush d ≡ done tt)
      → Reopens ⦃st = rocksdb_store db multi_get⦄
          (rocksdb_laws db multi_get one_by_one laws)
          depth
          hasher
          (rocksdb_again db flush depth)
  rocksdb_again-Reopens multi_get one_by_one flush flush_ok t xs s =
      let (store, t', opened, made, r') =
        rocksdb_reopened laws multi_get one_by_one flush flush_ok depth t xs positive
          s.represents in
      opened_again ⦃st = rocksdb_store db multi_get⦄ (rocksdb_laws db multi_get one_by_one laws)
        depth hasher t xs (RocksDb.new db flush t.store.db) store t' s.same opened made r'

pub sqlite_again-Reopens :
    {C : Type 0} {db : Connection C} (laws : ConnectionLaws db) (opening : OpenLaws laws)
    (depth : ℕ) (hasher : Hasher)
    → 0 < depth
    → Reopens ⦃st = sqlite_store db⦄ (sqlite_laws laws) depth hasher (sqlite_again db depth)
sqlite_again-Reopens {db = db} laws opening depth hasher positive t xs s =
    let (store, t', opened, made, r') =
      sqlite_reopened laws opening depth t xs positive s.represents in
    opened_again ⦃st = sqlite_store db⦄ (sqlite_laws laws) depth hasher t xs
      (Sqlite.new db t.store.conn) store t' s.same opened made r'
