-- ===== src/Sqlite/Reopen.antt =====
-- `SqliteStore::new` over the database of a valid store.
use rs_merkle_tree.KeyValue.Batches.{node_of}
use rs_merkle_tree.KeyValue.{read_count, done}
use rs_merkle_tree.Sqlite.{Connection, SqliteStore, new}
use rs_merkle_tree.Run.{ok}
use rs_merkle_tree.Base.{
  ℕ, ◌≡◌, refl, sym, ap, ◌∙◌, inl, inr, none, arith, ◌==◌, if◌then◌else◌, Bool-cases,
}
use rs_merkle_tree.Sqlite.Valid.{SameStored, SameStored-trans, ConnectionLaws, IsValid, look}

-- What the database documents of the statements that `new` runs, of their texts: the settings leave
-- what is stored alone; the schema makes the tables that are not there and leaves what is stored
-- alone; with both tables, the query reads the count and the deletion leaves nothing.
pub record OpenLaws {C : Type 0} {db : Connection C} (laws : ConnectionLaws db) : Type 0 where
  pub pragma_ok :
      (c : C)
      → laws.view.IsFree c
      → (c' : C) × (db.execute_batch c "PRAGMA journal_mode = WAL;\nPRAGMA synchronous = NORMAL;"
          ≡ (c', done tt))
        × laws.view.IsFree c'
        × SameStored laws.view c c'
  pub schema_ok :
      (c : C)
      → laws.view.IsFree c
      → (c' : C) × (db.execute_batch c
            "BEGIN;\n             CREATE TABLE IF NOT EXISTS nodes (\n                 level INTEGER NOT NULL,\n                 idx   INTEGER NOT NULL,\n                 node  BLOB    NOT NULL CHECK(length(node) = 32),\n                 PRIMARY KEY(level, idx)\n             );\n             CREATE TABLE IF NOT EXISTS metadata (\n                 key   TEXT PRIMARY KEY,\n                 value BLOB NOT NULL\n             );\n             COMMIT;"
          ≡ (c', done tt))
        × laws.view.IsReady c'
        × SameStored laws.view c c'
  pub query_ok :
      (c : C)
      → laws.view.IsReady c
      → db.query_row c "SELECT value FROM metadata WHERE key = ?1" "NUM_LEAVES"
        ≡ done (laws.view.stored_count c)
  pub clear_ok :
      (c : C)
      → laws.view.IsReady c
      → (c' : C) × (db.execute_batch c "DELETE FROM nodes; DELETE FROM metadata;" ≡ (c', done tt))
        × laws.view.IsReady c'
        × ((l i : ℕ) → laws.view.stored c' l i ≡ none)
        × (laws.view.stored_count c' ≡ none)

module _ {C : Type 0} {db : Connection C} (laws : ConnectionLaws db) (opening : OpenLaws laws) where
  -- A valid store that is opened again has the same number of leaves, and each position reads as it
  -- did; where it has no leaves it is emptied.
  pub sqlite_new_ok :
      (s : SqliteStore C)
      → IsValid laws s
      → (s' : SqliteStore C) × (new db s.conn ≡ ok s')
        × IsValid laws s'
        × (s'.num_leaves ≡ s.num_leaves)
        × ((l i : ℕ)
            → look laws s'.conn l i ≡ (if s.num_leaves == 0 then none else look laws s.conn l i))
  unfolding new
  sqlite_new_ok s v =
      let (c1, e1, free1, same1) = opening.pragma_ok s.conn (laws.ready_free s.conn v.ready) in
      let (c2, e2, ready2, same2) = opening.schema_ok c1 free1 in
      let kept = SameStored-trans laws.view s.conn c1 c2 same1 same2 in
      let count : read_count (laws.view.stored_count c2) ≡ ok s.num_leaves =
        ap read_count kept.1 ∙ v.saved in
      let read : (l i : ℕ) → look laws c2 l i ≡ look laws s.conn l i =
        λ l i. ap node_of (kept.0 l i) in
      elim (Bool-cases (s.num_leaves == 0)) [
        | inl empty ↦
            let (c3, e3, ready3, gone, no_count) = opening.clear_ok c2 ready2 in
            let zero_leaves : s.num_leaves ≡ 0 = ground arith in
            (
              record { conn = c3; num_leaves = s.num_leaves },
              rw (e1, e2, opening.query_ok c2 ready2, count, empty, e3),
              record {
                ready = ready3;
                whole = λ l i n found.
                    let nothing : look laws c3 l i ≡ none = ap node_of (gone l i) in
                    absurd (cc (sym nothing ∙ found));
                word = v.word;
                saved = rw no_count (ap ok (sym zero_leaves));
              },
              refl,
              λ l i. rw (empty, gone l i),
            )
        | inr some_leaves ↦ (
          record { conn = c2; num_leaves = s.num_leaves },
          rw (e1, e2, opening.query_ok c2 ready2, count, some_leaves),
          record {
            ready = ready2;
            whole = λ l i n found. v.whole l i n (sym (read l i) ∙ found);
            word = v.word;
            saved = count;
          },
          refl,
          λ l i. read l i ∙ rw some_leaves,
        )
      ]

  -- A free connection to a database without a count, with or without its tables: they are made
  -- and emptied, whatever else they hold.
  pub sqlite_new-uncounted :
      (c : C)
      → laws.view.IsFree c
      → laws.view.stored_count c ≡ none
      → (s : SqliteStore C) × (new db c ≡ ok s)
        × IsValid laws s
        × (s.num_leaves ≡ 0)
        × ((l i : ℕ) → look laws s.conn l i ≡ none)
  unfolding new
  sqlite_new-uncounted c free uncounted =
      let (c1, e1, free1, same1) = opening.pragma_ok c free in
      let (c2, e2, ready2, same2) = opening.schema_ok c1 free1 in
      let (c3, e3, ready3, gone, no_count) = opening.clear_ok c2 ready2 in
      let kept : laws.view.stored_count c2 ≡ none =
        (SameStored-trans laws.view c c1 c2 same1 same2).1 ∙ uncounted in
      let nothing : (l i : ℕ) → look laws c3 l i ≡ none = λ l i. ap node_of (gone l i) in
      (
        record { conn = c3; num_leaves = 0 },
        rw (e1, e2, opening.query_ok c2 ready2, kept, e3),
        record {
          ready = ready3;
          whole = λ l i n found. absurd (cc (sym (nothing l i) ∙ found));
          word = omega arith;
          saved = rw no_count;
        },
        refl,
        nothing,
      )
