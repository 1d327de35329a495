-- ===== src/Session/Fresh/Databases.antt =====
-- Sequences of calls from the first use of a database on.
use rs_merkle_tree.Session.Fresh.{new-Serves, places}
use rs_merkle_tree.Sled.Reads
use rs_merkle_tree.KeyValue.Valid.{look}
use rs_merkle_tree.KeyValue.Keys.{key_of}
use rs_merkle_tree.KeyValue.Keys.{num_leaves_key}
use rs_merkle_tree.Sled.Reopen.{sled_new-uncounted}
use rs_merkle_tree.Sqlite.Reopen.{OpenLaws, sqlite_new-uncounted}
use rs_merkle_tree.Sqlite.Valid.{ConnectionLaws}
use rs_merkle_tree.Sqlite.Laws.{sqlite_laws}
use rs_merkle_tree.Sqlite.{Connection, SqliteStore, sqlite_store}
use rs_merkle_tree.RocksDb.Laws.{rocksdb_laws, rocksdb_new_ok}
use rs_merkle_tree.RocksDb.{rocksdb_store}
use rs_merkle_tree.Sled.Laws.{sled_laws}
use rs_merkle_tree.Sled.{SledStore, sled_store}
use rs_merkle_tree.KeyValue.{Database, DatabaseLaws, Key, Reply, done}
use rs_merkle_tree.Session.Follows.{Follows}
use rs_merkle_tree.Tree.{MerkleTree}
use rs_merkle_tree.Hasher.{Hasher, IsHasher}
use rs_merkle_tree.Session.Stores.{sled_session, rocksdb_session, sqlite_session}
use rs_merkle_tree.Session.Again.{sled_again, rocksdb_again, sqlite_again}
use rs_merkle_tree.Session.{Call, IsCall}
use rs_merkle_tree.Run.{ok}
use rs_merkle_tree.Base.{Option, map, ℕ, ◌<◌, ◌≡◌, refl, sym, ◌∙◌, none, List, [], arith, All}
use rs_merkle_tree.Sled
use rs_merkle_tree.RocksDb
use rs_merkle_tree.Sqlite
use rs_merkle_tree.Tree

module _ {D : Type 0} {db : Database D} (laws : DatabaseLaws db) (d : D) (sound : laws.IsSound d)
    (depth : ℕ) (hasher : Hasher) (calls : List Call) (positive : 0 < depth) (small : depth < 64)
    (is_hasher : IsHasher hasher) (good : All IsCall calls) where
  -- On a sound database of sled without a number of leaves, whatever else it holds, with a lawful
  -- hasher and at a positive depth below 64, where clearing a sound database empties it:
  -- `SledStore::new` and `MerkleTree::new` return, and every sequence of calls after that (batches
  -- of nodes that fit or do not, `root`, proofs of any index, `num_leaves`, checks of any proofs,
  -- and openings of the store and the tree) answers as it does over the list of the leaves, from
  -- the empty list on, as long as the database takes the writes; an `add` of which it refuses a
  -- write fails, and either the calls go on as if it had not been there, or the root is as before
  -- while the leaves are counted, and the comparison ends.
  pub sled_from_empty :
      laws.entries d num_leaves_key ≡ none
      → (clear : D → D × Reply (Unit {0}))
      → ((d : D)
          → laws.IsSound d
          → (d' : D) × (clear d ≡ (d', done tt))
            × laws.IsSound d'
            × ((key : Key) → laws.entries d' key ≡ none))
      → (s : SledStore D) × (t : MerkleTree (SledStore D)) × (Sled.new db clear d ≡ ok s)
        × (Tree.new depth hasher s ≡ ok t)
        × Follows ⦃st = sled_store db⦄
            (sled_laws laws)
            depth
            hasher
            (sled_again db clear depth)
            calls
            t
            []
  unfolding Sled.get_num_leaves
  sled_from_empty uncounted clear clear_ok =
      let (s, opened, valid, count, nothing) =
        sled_new-uncounted laws clear clear_ok d sound uncounted in
      let bound = places depth 63 (omega arith) in
      let (t, made, serves) =
        new-Serves ⦃st = sled_store db⦄ (sled_laws laws) depth hasher s positive is_hasher
          (omega (arith, bound)) valid nothing count in
      (
        s,
        t,
        opened,
        made,
        sled_session laws clear clear_ok depth hasher calls t [] positive small serves good,
      )

  -- On a sound database of rocksdb that is empty, with a lawful hasher and at a positive depth
  -- below 64, where `multi_get` answers each key as `get` does and the flush of a sound database
  -- succeeds: `RocksDbStore::new` and `MerkleTree::new` return, and every sequence of calls after
  -- that (batches of nodes that fit or do not, `root`, proofs of any index, `num_leaves`, checks of
  -- any proofs, and openings of the store and the tree) answers as it does over the list of the
  -- leaves, from the empty list on, as long as the database takes the writes; an `add` of which it
  -- refuses a write fails, and either the calls go on as if it had not been there, or the root is
  -- as before while the leaves are counted, and the comparison ends.
  pub rocksdb_from_empty :
      ((key : Key) → laws.entries d key ≡ none)
      → (multi_get : D → List Key → List (Reply (Option (List ℕ))))
      → (one_by_one : (d : D) (ks : List Key) → multi_get d ks ≡ map (db.get d) ks)
      → (flush : D → Reply (Unit {0})) → ((d : D) → laws.IsSound d → flush d ≡ done tt)
      → (s : SledStore D) × (t : MerkleTree (SledStore D)) × (RocksDb.new db flush d ≡ ok s)
        × (Tree.new depth hasher s ≡ ok t)
        × Follows ⦃st = rocksdb_store db multi_get⦄
            (rocksdb_laws db multi_get one_by_one laws)
            depth
            hasher
            (rocksdb_again db flush depth)
            calls
            t
            []
  unfolding RocksDb.get_num_leaves
  rocksdb_from_empty bare multi_get one_by_one flush flush_ok =
      let s : SledStore D = record { db = d; num_leaves = 0 } in
      let nothing : (l i : ℕ) → look laws d l i ≡ none =
        λ l i. rw (bare (key_of l i)) (ground arith) in
      let valid : Sled.Reads.IsValid laws s = record {
        sound = sound;
        whole = λ l i n found. absurd (cc (sym (nothing l i) ∙ found));
        word = omega arith;
        saved = rw (bare num_leaves_key);
      } in
      let bound = places depth 63 (omega arith) in
      let (t, made, serves) =
        new-Serves ⦃st = rocksdb_store db multi_get⦄ (rocksdb_laws db multi_get one_by_one laws)
          depth hasher s positive is_hasher (omega (arith, bound)) valid nothing refl in
      (
        s,
        t,
        rocksdb_new_ok db multi_get one_by_one laws flush s flush_ok valid,
        made,
        rocksdb_session laws multi_get one_by_one flush flush_ok depth hasher calls t [] positive
            small serves good,
      )

-- On a lawful connection to a database of sqlite without a number of leaves, on which no
-- transaction is begun, whether the tables are there or not and whatever else they hold, with a
-- lawful hasher and at a positive depth below 64: `SqliteStore::new` and `MerkleTree::new` return,
-- and every sequence of calls after that (batches of nodes that fit or do not, `root`, proofs of
-- any index, `num_leaves`, checks of any proofs, and openings of the store and the tree) answers
-- as it does over the list of the leaves, from the empty list on, as long as the transactions
-- succeed; an `add` with one that fails gives an error, and either the calls go on as if it had
-- not been there, or the root is as before while the leaves are counted, and the comparison ends.
pub sqlite_from_empty :
    {C : Type 0} {db : Connection C} (laws : ConnectionLaws db) (opening : OpenLaws laws) (c : C)
    (depth : ℕ) (hasher : Hasher) (calls : List Call)
    → laws.view.IsFree c
    → laws.view.stored_count c ≡ none
    → 0 < depth
    → depth < 64
    → IsHasher hasher
    → All IsCall calls
    → (s : SqliteStore C) × (t : MerkleTree (SqliteStore C)) × (Sqlite.new db c ≡ ok s)
      × (Tree.new depth hasher s ≡ ok t)
      × Follows ⦃st = sqlite_store db⦄
          (sqlite_laws laws)
          depth
          hasher
          (sqlite_again db depth)
          calls
          t
          []
unfolding Sqlite.get_num_leaves
sqlite_from_empty {db = db} laws opening c depth hasher calls free uncounted positive small
      is_hasher good =
    let (s, opened, valid, count, nothing) = sqlite_new-uncounted laws opening c free uncounted in
    let bound = places depth 63 (omega arith) in
    let (t, made, serves) =
      new-Serves ⦃st = sqlite_store db⦄ (sqlite_laws laws) depth hasher s positive is_hasher
        (omega (arith, bound)) valid nothing count in
    (
      s,
      t,
      opened,
      made,
      sqlite_session laws opening depth hasher calls t [] positive small serves good,
    )
