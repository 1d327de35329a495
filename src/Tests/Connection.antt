-- ===== src/Tests/Connection.antt =====
-- A connection that keeps its two tables as functions. Its commits may fail; without the tables the
-- statements on them fail, and outside of a transaction a statement that writes commits at once.
use rs_merkle_tree.Base.{
  inr, inl, Bool-cases, ℕ, suc, ◌≡◌, ◌⊎◌, refl, ap, Bool, false, true, ◌&&◌, Option, none, some,
  List, [], ◌∷◌, map, ◌==◌, if◌then◌else◌,
}
use Prim.Native.String
use rs_merkle_tree.KeyValue.{Replies, granted, denied, Reply, done, failed}
use rs_merkle_tree.Sqlite.{Connection}
use rs_merkle_tree.Sqlite.Query.{triples}
use rs_merkle_tree.Sqlite.Valid.{View, ConnectionLaws, Stopped}
use rs_merkle_tree.Sqlite.Reopen.{OpenLaws}
use Prim.Native.Nat.{Ordering}
use Prim.Native.String.{String, ◌++◌}

-- The nodes by level and index, and the count.
abbrev pub Tables : Type 0
Tables = (ℕ → ℕ → Option (List ℕ)) × Option (List ℕ)

pub record File : Type 0 where
  pub commits : Bool
  pub tables : Bool
  pub begun : Bool
  pub stored : Tables
  pub pending : Tables

abbrev pub no_rows : Tables
no_rows = ((λ l i. none), none)

abbrev is_text : String → String → Bool
is_text sql text = elim (String.compare sql text) [
  | Ordering.lt ↦ false
  | Ordering.eq ↦ true
  | Ordering.gt ↦ false
]

-- The text that makes the tables.
abbrev tables_text : String
tables_text =
    ("BEGIN;\n"
      ++ ("             CREATE TABLE IF NOT EXISTS nodes (\n"
          ++ ("                 level INTEGER NOT NULL,\n"
              ++ ("                 idx   INTEGER NOT NULL,\n"
                  ++ ("                 node  BLOB    NOT NULL CHECK(length(node) = 32),\n"
                      ++ ("                 PRIMARY KEY(level, idx)\n"
                          ++ ("             );\n"
                              ++ ("             CREATE TABLE IF NOT EXISTS metadata (\n"
                                  ++ ("                 key   TEXT PRIMARY KEY,\n"
                                      ++ ("                 value BLOB NOT NULL\n"
                                          ++ ("             );\n"
                                              ++ "             COMMIT;")))))))))))

abbrev rows : Tables → List ℕ → List (Reply (Option (List ℕ)))
rows tables (level ∷ idx ∷ ord ∷ binds) = done (tables.0 level idx) ∷ rows tables binds
rows tables _ = []

-- A change of the tables, of the transaction or, where none is begun, of the database.
abbrev write : File → Bool → Tables → File × Reply (Unit {0})
write c known changed =
    if c.tables && known
    then (if c.begun
        then (record c { pending = changed }, done tt)
        else (record c { stored = changed; pending = changed }, done tt))
    else (c, failed 1)

abbrev commit : File → File × Reply (Unit {0})
commit c =
    if c.begun && c.commits
    then (record c { stored = c.pending; begun = false }, done tt)
    else (c, failed 13)

abbrev shown : File → Tables
shown c = if c.begun then c.pending else c.stored

abbrev pub db : Connection File
db = record {
  execute_batch = λ c sql.
      if is_text sql "PRAGMA journal_mode = WAL;\nPRAGMA synchronous = NORMAL;"
      then (c, done tt)
      else (if is_text sql tables_text
          then (if c.begun then (c, failed 1) else (record c { tables = true }, done tt))
          else write c (is_text sql "DELETE FROM nodes; DELETE FROM metadata;") no_rows);
  query_row = λ c sql key.
      if c.tables && is_text sql "SELECT value FROM metadata WHERE key = ?1"
      then done (shown c).1
      else failed 1;
  prepare = λ c sql. if c.tables then done tt else failed 1;
  query_map = λ c sql binds. if c.tables then done (rows (shown c) binds) else failed 1;
  transaction = λ c.
      if c.begun then (c, failed 1) else (record c { pending = c.stored; begun = true }, done tt);
  insert_node = λ c sql level idx blob.
      write c (is_text sql "INSERT OR REPLACE INTO nodes (level, idx, node) VALUES (?1, ?2, ?3)")
        ((λ l i. if l == level && i == idx then some blob else (shown c).0 l i), (shown c).1);
  insert_metadata = λ c sql key blob.
      write c (is_text sql "INSERT OR REPLACE INTO metadata (key, value) VALUES (?1, ?2)")
        ((shown c).0, some blob);
  commit = commit;
  rollback = λ c. record c { pending = c.stored; begun = false };
}

pub rows-triples :
    (c : File) (ord : ℕ) (keys : List (ℕ × ℕ))
    → rows c.stored (triples ord keys) ≡ map (λ key. done (c.stored.0 key.0 key.1)) keys
rows-triples c ord [] = refl
rows-triples c ord ((l, i) ∷ keys) =
    ap (◌∷◌ (done (c.stored.0 l i))) (rows-triples c (suc ord) keys)

abbrev pub view : View File
view = record {
  IsFree = λ c. c.begun ≡ false;
  IsReady = λ c. (c.tables ≡ true) × (c.begun ≡ false);
  IsBegun = λ c. (c.tables ≡ true) × (c.begun ≡ true);
  stored = λ c. c.stored.0;
  pending = λ c. c.pending.0;
  stored_count = λ c. c.stored.1;
  pending_count = λ c. c.pending.1;
}

pub commit_ends :
    (c : File)
    → view.IsBegun c
    → Replies
        (λ c'.
          view.IsReady c'
          × ((l i : ℕ) → c'.stored.0 l i ≡ c.pending.0 l i)
          × (c'.stored.1 ≡ c.pending.1))
        (λ c' _. Stopped view c c')
        (commit c)
commit_ends c (tables, begun) = elim (Bool-cases c.commits) [
  | inl able ↦ rw (begun, able) (granted ((tables, refl), (λ l i. refl), refl))
  | inr unable ↦ rw (begun, unable) (denied (inl (tables, refl), ((λ l i. refl), refl)))
]

pub rollback_ready : (c : File) → view.IsBegun c ⊎ view.IsReady c → view.IsReady (db.rollback c)
rollback_ready c (inl begun) = (begun.0, refl)
rollback_ready c (inr ready) = (ready.0, refl)

abbrev pub laws : ConnectionLaws db
laws = record {
  view = view;
  ready_free = λ c ready. ready.1;
  prepare_select_ok = λ c n ready some_key few. rw ready.0;
  select_ok = λ c keys ready some_key few. rw (ready.0, ready.1) (ap done (rows-triples c 0 keys));
  transaction_ends =
      λ c ready. rw ready.1 (granted ((ready.0, refl), ((λ l i. refl), refl), (λ l i. refl), refl));
  prepare_insert_ok = λ c begun. rw begun.0;
  insert_node_ends = λ c level idx blob begun.
      rw (begun.0, begun.1) (granted ((refl, refl), ((λ l i. refl), refl), (λ l i. refl), refl));
  insert_metadata_ends = λ c blob begun.
      rw (begun.0, begun.1) (granted ((refl, refl), ((λ l i. refl), refl), (λ l i. refl), refl));
  commit_ends = commit_ends;
  rollback_ok = λ c state. (rollback_ready c state, ((λ l i. refl), refl));
}

abbrev pub opening : OpenLaws laws
opening = record {
  pragma_ok = λ c free. (c, refl, free, ((λ l i. refl), refl));
  schema_ok = λ c free. (record c { tables = true }, rw free, (refl, free), ((λ l i. refl), refl));
  query_ok = λ c ready. rw (ready.0, ready.1);
  clear_ok = λ c ready. (
    record c { stored = no_rows; pending = no_rows },
    rw (ready.0, ready.1),
    ready,
    (λ l i. refl),
    refl,
  );
}
