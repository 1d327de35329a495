-- ===== src/Sqlite.antt =====
-- src/stores/sqlite_store.rs. The connection to the database is a parameter.
pub mod Query
pub mod Valid
pub mod Reads
pub mod Writes
pub mod Laws
pub mod Atomic
pub mod Reopen
use rs_merkle_tree.Sqlite.Query.{
  max_params, as_i64, build_values_sql_and_binds, select_sql, insert_node_sql, insert_metadata_sql,
  key_num_leaves,
}
use rs_merkle_tree.KeyValue.Keys.{be_bytes}
use rs_merkle_tree.KeyValue.{read_count, Reply, reply_expect, reply_ok, failed, done}
use rs_merkle_tree.Store.{Store}
use rs_merkle_tree.Run.Method.{bind, Method, return}
use rs_merkle_tree.Node.{Node, len}
use rs_merkle_tree.Run.{
  too_many_levels, database, ◌>>◌, invalid_node_length, store_error, length_mismatch, Run, ok, err,
  panic, ◌>>=◌,
}
use rs_merkle_tree.Base.{
  ℕ, suc, ◌+◌, ◌%◌, ◌^◌, max, Option, none, some, List, [], ◌∷◌, ltb, ◌==◌, if◌then◌else◌, length,
}
use Prim.Native.String.{String, ◌++◌}

-- What the store calls of rusqlite: statements by their text, a transaction, and the query of
-- `get`, whose rows come one by one.
pub record Connection (C : Type 0) : Type 0 where
  pub execute_batch : C → String → C × Reply (Unit {0})
  pub query_row : C → String → String → Reply (Option (List ℕ))
  pub prepare : C → String → Reply (Unit {0})
  pub query_map : C → String → List ℕ → Reply (List (Reply (Option (List ℕ))))
  pub transaction : C → C × Reply (Unit {0})
  pub insert_node : C → String → ℕ → ℕ → List ℕ → C × Reply (Unit {0})
  pub insert_metadata : C → String → String → List ℕ → C × Reply (Unit {0})
  pub commit : C → C × Reply (Unit {0})
  pub rollback : C → C

pub record SqliteStore (C : Type 0) : Type 0 where
  pub conn : C
  pub num_leaves : ℕ

-- `SqliteStore::decode_node`
unfoldable pub decode_node : List ℕ → Run Node
decode_node bytes =
    if length bytes == len
    then ok (record { bytes = bytes })
    else err (store_error invalid_node_length)

-- One row of the query, and all of them: the first error ends it.
unfoldable pub decode_row : Reply (Option (List ℕ)) → Run (Option Node)
decode_row (done none) = ok none
decode_row (done (some blob)) = decode_node blob >>= λ n. ok (some n)
decode_row (failed code) = err (store_error (database code))

unfoldable pub decode_rows : List (Reply (Option (List ℕ))) → Run (List (Option Node))
decode_rows [] = ok []
decode_rows (row ∷ rows) = do node ← decode_row row; nodes ← decode_rows rows; ok (node ∷ nodes)

-- A call that changes the connection, with `map_err(db_error)?`.
abbrev pub call : {C A : Type 0} → (C → C × Reply A) → Method C A
call f c = ((f c).0, reply_ok (f c).1)

-- The statement that `new` runs on a database with no leaves.
abbrev pub clear_sql : String
clear_sql = "DELETE FROM nodes; DELETE FROM metadata;"

abbrev pub pragma_sql : String
pragma_sql = "PRAGMA journal_mode = WAL;\nPRAGMA synchronous = NORMAL;"

abbrev pub schema_sql : String
schema_sql =
    ("BEGIN;\n"
      ++ ("             CREATE TABLE IF NOT EXISTS nodes (\n"
          ++ ("                 level INTEGER NOT NULL,\n"
              ++ ("                 idx   INTEGER NOT NULL,\n"
                  ++ ("                 node  BLOB    NOT NULL CHECK(length(node) = 32),\n"
                      ++ ("                 PRIMARY KEY(level, idx)\n"
                          ++ ("             );\n"
                              ++ ("             CREATE TABLE IF NOT EXISTS metadata (\n"
                                  ++ ("                 key   TEXT PRIMARY KEY,\n"
                                      ++ ("                 value BLOB NOT NULL\n"
                                          ++ ("             );\n"
                                              ++ "             COMMIT;")))))))))))

abbrev pub select_leaves_sql : String
select_leaves_sql = "SELECT value FROM metadata WHERE key = ?1"

module _ {C : Type 0} (db : Connection C) where
  -- `SqliteStore::new`, with the connection that it opened.
  unfoldable pub new : C → Run (SqliteStore C)
  new c = do
    reply_expect (db.execute_batch c pragma_sql).1
    let c = (db.execute_batch c pragma_sql).0
    reply_expect (db.execute_batch c schema_sql).1
    let c = (db.execute_batch c schema_sql).0
    saved ← reply_expect (db.query_row c select_leaves_sql key_num_leaves)
    num_leaves ← read_count saved
    if num_leaves == 0
        then (do
          reply_expect (db.execute_batch c clear_sql).1
          ok (record { conn = (db.execute_batch c clear_sql).0; num_leaves = num_leaves }))
        else ok (record { conn = c; num_leaves = num_leaves })

  -- The query of `get`, when its arguments have passed the checks.
  unfoldable pub select : C → List ℕ → List ℕ → Run (List (Option Node))
  unfolding decode_rows
  select c levels indices = do
    let (values_sql, binds) = build_values_sql_and_binds levels indices
    let sql = select_sql values_sql
    reply_ok (db.prepare c sql)
    rows ← reply_ok (db.query_map c sql binds)
    decode_rows rows

  unfoldable pub get : SqliteStore C → List ℕ → List ℕ → Run (List (Option Node))
  unfolding select
  get s levels indices =
      if length levels == length indices
      then (if length levels == 0
          then ok []
          else (if ltb max_params (length levels)
              then err (store_error (too_many_levels max_params))
              else select s.conn levels indices))
      else err (length_mismatch (length levels) (length indices))

  -- The loop over the nodes of `put`, from the one at `offset` on.
  unfoldable pub insert_nodes : ℕ → ℕ → ℕ → List Node → Method C (Unit {0})
  insert_nodes level start offset [] = return tt
  insert_nodes level start offset (n ∷ nodes) =
      bind
        (call λ c.
          db.insert_node c insert_node_sql (as_i64 level) (as_i64 ((start + offset) % 2 ^ 64))
            n.bytes)
        (λ _. insert_nodes level start (suc offset) nodes)

  -- What `put` does inside of its transaction; the result is the new number of leaves.
  unfoldable pub write_nodes : ℕ → ℕ → ℕ → List Node → Method C ℕ
  write_nodes num_leaves level start nodes =
      let num_leaves' = max num_leaves ((start + length nodes) % 2 ^ 64) in
      bind (λ c. (c, reply_ok (db.prepare c insert_node_sql)))
        λ _. bind (insert_nodes level start 0 nodes) λ _.
          (if level == 0
            then bind
                (call λ c.
                  db.insert_metadata c insert_metadata_sql key_num_leaves (be_bytes 8 num_leaves'))
                (λ _. return num_leaves')
            else return num_leaves)

  -- A commit, and the drop of a transaction whose commit failed.
  abbrev pub committed : ℕ → C × Reply (Unit {0}) → C × Run ℕ
  committed num_leaves (c, done _) = (c, ok num_leaves)
  committed num_leaves (c, failed code) = (db.rollback c, err (store_error (database code)))

  -- The end of the transaction: an error drops it, which takes its changes back.
  unfoldable pub finish : C × Run ℕ → C × Run ℕ
  finish (c, ok num_leaves) = committed num_leaves (db.commit c)
  finish (c, err e) = (db.rollback c, err e)
  finish (c, panic) = (db.rollback c, panic)

  -- `self.num_leaves = num_leaves`, where the transaction went through.
  abbrev pub settle : SqliteStore C → C × Run ℕ → SqliteStore C × Run (Unit {0})
  settle s (c, ok num_leaves) = (record { conn = c; num_leaves = num_leaves }, ok tt)
  settle s (c, err e) = (record s { conn = c }, err e)
  settle s (c, panic) = (record s { conn = c }, panic)

  unfoldable pub put : ℕ → ℕ → List Node → Method (SqliteStore C) (Unit {0})
  put level start [] s = (s, ok tt)
  put level start (n ∷ nodes) s = settle s (
      bind (call db.transaction)
        (λ _ c. finish (write_nodes s.num_leaves level start (n ∷ nodes) c)) s.conn)

  unfoldable pub get_num_leaves : SqliteStore C → ℕ
  get_num_leaves s = s.num_leaves

  abbrev pub sqlite_store : Store (SqliteStore C)
  sqlite_store = record { get = get; put = put; get_num_leaves = get_num_leaves }
