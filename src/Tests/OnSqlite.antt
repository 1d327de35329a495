-- ===== src/Tests/OnSqlite.antt =====
-- The theorems on `SqliteStore`, over the connection of Tests/Connection.
use rs_merkle_tree.Tests.Connection.{File, no_rows, db, laws, view}
use rs_merkle_tree.Store.{look_each}
use rs_merkle_tree.Run.{database, too_many_levels, store_error, length_mismatch, ok, err}
use rs_merkle_tree.Base.{
  zero, All, ◌^◌, ◌<◌, ℕ, suc, ◌≡◌, refl, true, false, List, [], ◌∷◌, arith, ltb, ◌==◌,
  if◌then◌else◌, length, replicate,
}
use rs_merkle_tree.Tests.{pair, pair-IsRun}
use rs_merkle_tree.Sqlite
use rs_merkle_tree.Sqlite.{
  Connection, SqliteStore, sqlite_store, put, get, get_num_leaves, clear_sql,
}
use rs_merkle_tree.Sqlite.Query.{build_values_sql_and_binds, build_values_sql_and_binds-triples}
use rs_merkle_tree.Sqlite.Valid.{SameStored, IsValid, look}
use rs_merkle_tree.Sqlite.Reads.{sqlite_get-look}
use rs_merkle_tree.Sqlite.Laws.{sqlite_put-Ends, Stored, Unchanged}
use rs_merkle_tree.Sqlite.Atomic.{sqlite_put_atomic}
use rs_merkle_tree.Run.Method.{Ends}

abbrev none_stored : SqliteStore File
none_stored = record {
  conn = record {
    commits = true;
    tables = true;
    begun = false;
    stored = no_rows;
    pending = no_rows;
  };
  num_leaves = 0;
}

none_stored-IsValid : IsValid laws none_stored
none_stored-IsValid = record {
  ready = (refl, refl);
  whole = λ l i n found. absurd (cc);
  word = omega arith;
  saved = refl;
}

zeros-small : (n bound : ℕ) → 0 < bound → All (λ l. l < bound) (replicate n 0)
zeros-small zero bound h = tt
zeros-small (suc n) bound h = (h, zeros-small n bound h)

abbrev many : List ℕ
many = replicate 257 0

sqlite_get-look_example : get db none_stored many many ≡ (
    if length many == length many
    then (if ltb 256 (length many)
        then err (store_error (too_many_levels 256))
        else ok (look_each (look laws none_stored.conn) many many))
    else err (length_mismatch (length many) (length many)))
sqlite_get-look_example =
    sqlite_get-look laws none_stored many many none_stored-IsValid
      (zeros-small 257 (2 ^ 32) (omega arith), zeros-small 257 (2 ^ 64) (omega arith))

build_values_sql_and_binds-triples_example :
    build_values_sql_and_binds (33 ∷ 34 ∷ []) (10 ∷ 20 ∷ [])
    ≡ ("(?, ?, ?),(?, ?, ?)", 33 ∷ 10 ∷ 0 ∷ 34 ∷ 20 ∷ 1 ∷ [])
build_values_sql_and_binds-triples_example =
    build_values_sql_and_binds-triples (33 ∷ 34 ∷ []) (10 ∷ 20 ∷ []) refl (omega arith)
      ((omega arith, (omega arith, tt)), (omega arith, (omega arith, tt)))

-- A database that is full: its commits fail.
abbrev full : SqliteStore File
full = record {
  conn = record {
    commits = false;
    tables = true;
    begun = false;
    stored = no_rows;
    pending = no_rows;
  };
  num_leaves = 0;
}

full-put : put db 0 0 pair full ≡ (full, err (store_error (database 13)))
unfolding put Sqlite.write_nodes Sqlite.insert_nodes Sqlite.finish
full-put = refl

full-IsValid : IsValid laws full
full-IsValid = record {
  ready = (refl, refl);
  whole = λ l i n found. absurd (cc);
  word = omega arith;
  saved = refl;
}

sqlite_put-Ends_example :
    Ends (Stored laws full 0 0 pair) (Unchanged laws full) (put db 0 0 pair full)
sqlite_put-Ends_example =
    sqlite_put-Ends laws full 0 0 pair full-IsValid (pair-IsRun (look laws full.conn))

sqlite_put_atomic_example :
    (get_num_leaves db full ≡ get_num_leaves db full)
    × view.IsReady full.conn
    × SameStored view full.conn full.conn
sqlite_put_atomic_example =
    sqlite_put_atomic laws full full 0 0 pair (store_error (database 13)) (refl, refl) full-put
