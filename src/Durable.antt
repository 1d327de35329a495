-- ===== src/Durable.antt =====
-- What a tree over a store on disk has after the store and the tree are opened again:
-- `MerkleTree::new` of src/tree.rs over the `new` of each store.
pub mod Resume
use rs_merkle_tree.KeyValue.{Database, DatabaseLaws, Key, Reply, done}
use rs_merkle_tree.Store.{Store, StoreLaws}
use rs_merkle_tree.Node.{Node}
use rs_merkle_tree.Run.{ok}
use rs_merkle_tree.Base.{
  ◌≤◌, inl, inr, Option, none, map, arith, ◌==◌, if◌then◌else◌, Bool-cases, ℕ, ◌<◌, ◌≡◌, refl, ◌∙◌,
  some, List, length,
}
use rs_merkle_tree.Tree
use rs_merkle_tree.Files
use rs_merkle_tree.Files.{FileStore, file_store}
use rs_merkle_tree.Files.Laws.{file_laws}
use rs_merkle_tree.Files.Reopen.{new-reopen}
use rs_merkle_tree.Sled
use rs_merkle_tree.Sled.{SledStore, sled_store}
use rs_merkle_tree.Sled.Laws.{sled_laws}
use rs_merkle_tree.Sled.Reopen.{sled_new_ok}
use rs_merkle_tree.RocksDb
use rs_merkle_tree.RocksDb.{rocksdb_store}
use rs_merkle_tree.RocksDb.Laws.{rocksdb_laws, rocksdb_new_ok}
use rs_merkle_tree.Sqlite
use rs_merkle_tree.Sqlite.{Connection, SqliteStore, sqlite_store}
use rs_merkle_tree.Sqlite.Valid.{ConnectionLaws}
use rs_merkle_tree.Sqlite.Laws.{sqlite_laws}
use rs_merkle_tree.Sqlite.Reopen.{OpenLaws, sqlite_new_ok}
use rs_merkle_tree.Tree.{MerkleTree}
use rs_merkle_tree.Tree.Create.{new-Represents}
use rs_merkle_tree.Tree.Spec.{Represents}
use rs_merkle_tree.Tree.Spec.Facts.{width_zero}

-- A tree over a store that reads as the one of a tree with the leaves `xs` has these leaves.
module _ {S : Type 0} ⦃st : Store S⦄ (laws : StoreLaws st) (depth : ℕ) (positive : 0 < depth)
    (t : MerkleTree S) (xs : List Node) (r : Represents laws depth t xs) where
  pub new_over :
      (s : S)
      → laws.IsValid s
      → st.get_num_leaves s ≡ st.get_num_leaves t.store
      → ((l i : ℕ) → l ≤ depth → laws.look s l i ≡ laws.look t.store l i)
      → (t' : MerkleTree S) × (Tree.new depth t.hasher s ≡ ok t') × Represents laws depth t' xs
  new_over s valid count same =
      new-Represents laws depth positive t.hasher r.is_tree.is_hasher s xs (record {
        valid = valid;
        holds = λ l i h. same l i h ∙ r.holds l i h;
        counted = count ∙ r.counted;
        fits = r.fits;
        roomy = r.roomy;
        are_nodes = r.are_nodes;
      })

  -- So has one over a store that was emptied, where the tree had no leaves.
  cleared-look :
      (l i : ℕ)
      → l ≤ depth
      → (if st.get_num_leaves t.store == 0 then none else laws.look t.store l i)
        ≡ laws.look t.store l i
  cleared-look l i h = elim (Bool-cases (st.get_num_leaves t.store == 0)) [
    | inl empty ↦
        let no_leaves : length xs ≡ 0 = ground (arith, r.counted) in
        rw (empty, r.holds l i h, no_leaves, width_zero l) (ground arith)
    | inr some_leaves ↦ rw some_leaves
  ]

-- Of a tree of positive depth over a `FileStore`, that holds the leaves `xs`: a store opened on the
-- same directory, with fuel for one round more than it has levels, and a tree over it, with the
-- same hasher, are made, and the tree holds `xs`.
pub files_reopened :
    (depth fuel : ℕ) (t : MerkleTree FileStore) (xs : List Node)
    → 0 < depth
    → Represents file_laws depth t xs
    → length t.store.files < fuel
    → (s : FileStore) × (t' : MerkleTree FileStore) × (Files.new fuel t.store.disk ≡ some (ok s))
      × (Tree.new depth t.hasher s ≡ ok t')
      × Represents file_laws depth t' xs
files_reopened depth fuel t xs positive r enough =
    let (t', made, r') =
      new_over file_laws depth positive t xs r t.store r.valid refl (λ l i h. refl) in
    (t.store, t', new-reopen t.store r.valid fuel enough, made, r')

module _ {D : Type 0} {db : Database D} (laws : DatabaseLaws db) where
  -- Of a tree of positive depth over a `SledStore` with a lawful database, that holds the leaves
  -- `xs`, where clearing a sound database empties it: a store opened on the same database and a
  -- tree over it, with the same hasher, are made, and the tree holds `xs`.
  pub sled_reopened :
      (clear : D → D × Reply (Unit {0}))
      → ((d : D)
          → laws.IsSound d
          → (d' : D) × (clear d ≡ (d', done tt))
            × laws.IsSound d'
            × ((key : Key) → laws.entries d' key ≡ none))
      → (depth : ℕ) (t : MerkleTree (SledStore D)) (xs : List Node) → 0 < depth
      → Represents (sled_laws laws) depth t xs
      → (s : SledStore D) × (t' : MerkleTree (SledStore D)) × (Sled.new db clear t.store.db ≡ ok s)
        × (Tree.new depth t.hasher s ≡ ok t')
        × Represents (sled_laws laws) depth t' xs
  unfolding Sled.get_num_leaves
  sled_reopened clear clear_ok depth t xs positive r =
      let (s, opened, valid, count, read) = sled_new_ok laws clear clear_ok t.store r.valid in
      let (t', made, r') =
        new_over ⦃st = sled_store db⦄ (sled_laws laws) depth positive t xs r s valid count (λ l i h.
          read l i
          ∙ cleared-look ⦃st = sled_store db⦄ (sled_laws laws) depth positive t xs r l i h) in
      (s, t', opened, made, r')

  -- Of a tree of positive depth over a `RocksDbStore` with a lawful database, that holds the leaves
  -- `xs`, where `multi_get` answers each key as `get` does and the flush of a sound database
  -- succeeds: a store opened on the same database and a tree over it, with the same hasher, are
  -- made, and the tree holds `xs`.
  pub rocksdb_reopened :
      (multi_get : D → List Key → List (Reply (Option (List ℕ))))
      → (one_by_one : (d : D) (ks : List Key) → multi_get d ks ≡ map (db.get d) ks)
      → (flush : D → Reply (Unit {0})) → ((d : D) → laws.IsSound d → flush d ≡ done tt)
      → (depth : ℕ) (t : MerkleTree (SledStore D)) (xs : List Node) → 0 < depth
      → Represents (rocksdb_laws db multi_get one_by_one laws) depth t xs
      → (s : SledStore D) × (t' : MerkleTree (SledStore D)) × (RocksDb.new db flush t.store.db
          ≡ ok s)
        × (Tree.new depth t.hasher s ≡ ok t')
        × Represents (rocksdb_laws db multi_get one_by_one laws) depth t' xs
  rocksdb_reopened multi_get one_by_one flush flush_ok depth t xs positive r =
      let (t', made, r') =
        new_over ⦃st = rocksdb_store db multi_get⦄ (rocksdb_laws db multi_get one_by_one laws) depth
          positive t xs r t.store r.valid refl (λ l i h. refl) in
      (
        t.store,
        t',
        rocksdb_new_ok db multi_get one_by_one laws flush t.store flush_ok r.valid,
        made,
        r',
      )

-- Of a tree of positive depth over a `SqliteStore` with a lawful connection, that holds the leaves
-- `xs`: a store opened on the same database and a tree over it, with the same hasher, are made, and
-- the tree holds `xs`.
pub sqlite_reopened :
    {C : Type 0} {db : Connection C} (laws : ConnectionLaws db) (opening : OpenLaws laws)
    (depth : ℕ) (t : MerkleTree (SqliteStore C)) (xs : List Node)
    → 0 < depth
    → Represents (sqlite_laws laws) depth t xs
    → (s : SqliteStore C) × (t' : MerkleTree (SqliteStore C)) × (Sqlite.new db t.store.conn ≡ ok s)
      × (Tree.new depth t.hasher s ≡ ok t')
      × Represents (sqlite_laws laws) depth t' xs
unfolding Sqlite.get_num_leaves
sqlite_reopened {db = db} laws opening depth t xs positive r =
    let (s, opened, valid, count, read) = sqlite_new_ok laws opening t.store r.valid in
    let (t', made, r') =
      new_over ⦃st = sqlite_store db⦄ (sqlite_laws laws) depth positive t xs r s valid count
        (λ l i h.
          read l i
          ∙ cleared-look ⦃st = sqlite_store db⦄ (sqlite_laws laws) depth positive t xs r l i h) in
    (s, t', opened, made, r')
