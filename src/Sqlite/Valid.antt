-- ===== src/Sqlite/Valid.antt =====
-- What a `SqliteStore` relies on, and its invariant. What the database documents of a statement is
-- stated of its text.
use rs_merkle_tree.Sqlite.{Connection, SqliteStore}
use rs_merkle_tree.Sqlite.Query.{groups, triples}
use rs_merkle_tree.KeyValue.Batches.{node_of}
use rs_merkle_tree.KeyValue.{read_count, done, failed, Replies}
use Prim.Native.String.{◌++◌}
use rs_merkle_tree.Node.{Node, len}
use rs_merkle_tree.Run.{ok}
use rs_merkle_tree.Base.{
  ℕ, ◌*◌, ◌^◌, ◌≤◌, ◌<◌, ◌≡◌, ◌&&◌, ◌⊎◌, ◌∙◌, Option, some, List, map, ◌==◌, if◌then◌else◌, length,
}

-- A connection that works is free (no transaction is begun on it; the tables `nodes` and
-- `metadata`, where the database has them, are those of the schema of the store), ready (free, and
-- the database has both tables), or begun (in a transaction, on a database with both tables). The
-- database has the nodes and the count that were committed (`stored`; nothing where it has no
-- table); a begun connection shows those of its transaction (`pending`). The count is the value of
-- the key NUM_LEAVES.
pub record View (C : Type 0) : Type 1 where
  pub IsFree : C → Type 0
  pub IsReady : C → Type 0
  pub IsBegun : C → Type 0
  pub stored : C → ℕ → ℕ → Option (List ℕ)
  pub pending : C → ℕ → ℕ → Option (List ℕ)
  pub stored_count : C → Option (List ℕ)
  pub pending_count : C → Option (List ℕ)

module _ {C : Type 0} (view : View C) where
  -- Two connections to a database with the same contents.
  abbrev pub SameStored : C → C → Type 0
  SameStored c c' =
      ((l i : ℕ) → view.stored c' l i ≡ view.stored c l i)
      × (view.stored_count c' ≡ view.stored_count c)

  pub SameStored-trans : (a b c : C) → SameStored a b → SameStored b c → SameStored a c
  SameStored-trans a b c p q = ((λ l i. q.0 l i ∙ p.0 l i), q.1 ∙ p.1)

  -- After a call that failed, the transaction is begun still, or the database has ended it; in both
  -- cases nothing of it is stored.
  abbrev pub Stopped : C → C → Type 0
  Stopped c c' = (view.IsBegun c' ⊎ view.IsReady c') × SameStored c c'

-- What the database documents. On a ready connection the query of the nodes answers for up to 999
-- parameters, and a transaction begins. In a transaction, and only there, a statement that writes
-- changes what the transaction shows and not what is stored, until the commit stores it. Each call
-- of a transaction is done or fails, and a rollback ends the transaction, if it is not ended yet.
pub record ConnectionLaws {C : Type 0} (db : Connection C) : Type 1 where
  pub view : View C
  pub ready_free : (c : C) → view.IsReady c → view.IsFree c
  pub prepare_select_ok :
      (c : C) (n : ℕ)
      → view.IsReady c
      → 0 < n
      → n * 3 ≤ 999
      → db.prepare c (
          "WITH req(level, idx, ord) AS (VALUES "
          ++ (groups n ++ ") SELECT node FROM req LEFT JOIN nodes USING(level, idx) ORDER BY ord"))
        ≡ done tt
  pub select_ok :
      (c : C) (keys : List (ℕ × ℕ))
      → view.IsReady c
      → 0 < length keys
      → length keys * 3 ≤ 999
      → db.query_map c
          ("WITH req(level, idx, ord) AS (VALUES "
            ++ (groups (length keys)
                ++ ") SELECT node FROM req LEFT JOIN nodes USING(level, idx) ORDER BY ord"))
          (triples 0 keys)
        ≡ done (map (λ key. done (view.stored c key.0 key.1)) keys)
  pub transaction_ends :
      (c : C)
      → view.IsReady c
      → Replies
          (λ c'.
            view.IsBegun c'
            × SameStored view c c'
            × ((l i : ℕ) → view.pending c' l i ≡ view.stored c l i)
            × (view.pending_count c' ≡ view.stored_count c))
          (λ c' _. view.IsReady c' × SameStored view c c')
          (db.transaction c)
  pub prepare_insert_ok :
      (c : C)
      → view.IsBegun c
      → db.prepare c "INSERT OR REPLACE INTO nodes (level, idx, node) VALUES (?1, ?2, ?3)" ≡ done tt
  pub insert_node_ends :
      (c : C) (level idx : ℕ) (blob : List ℕ)
      → view.IsBegun c
      → Replies
          (λ c'.
            view.IsBegun c'
            × SameStored view c c'
            × ((l i : ℕ)
                → view.pending c' l i
                  ≡ (if l == level && i == idx then some blob else view.pending c l i))
            × (view.pending_count c' ≡ view.pending_count c))
          (λ c' _. Stopped view c c')
          (db.insert_node c "INSERT OR REPLACE INTO nodes (level, idx, node) VALUES (?1, ?2, ?3)"
            level idx blob)
  pub insert_metadata_ends :
      (c : C) (blob : List ℕ)
      → view.IsBegun c
      → Replies
          (λ c'.
            view.IsBegun c'
            × SameStored view c c'
            × ((l i : ℕ) → view.pending c' l i ≡ view.pending c l i)
            × (view.pending_count c' ≡ some blob))
          (λ c' _. Stopped view c c')
          (db.insert_metadata c "INSERT OR REPLACE INTO metadata (key, value) VALUES (?1, ?2)"
            "NUM_LEAVES" blob)
  pub commit_ends :
      (c : C)
      → view.IsBegun c
      → Replies
          (λ c'.
            view.IsReady c'
            × ((l i : ℕ) → view.stored c' l i ≡ view.pending c l i)
            × (view.stored_count c' ≡ view.pending_count c))
          (λ c' _. Stopped view c c')
          (db.commit c)
  pub rollback_ok :
      (c : C)
      → view.IsBegun c ⊎ view.IsReady c
      → view.IsReady (db.rollback c) × SameStored view c (db.rollback c)

module _ {C : Type 0} {db : Connection C} (laws : ConnectionLaws db) where
  -- A call of a transaction that fails.
  pub data Refusal : Type 0 where
    transaction_refused :
        (c c' : C) (code : ℕ) → laws.view.IsReady c → db.transaction c ≡ (c', failed code) → Refusal
    node_refused :
        (c c' : C) (level idx : ℕ) (blob : List ℕ) (code : ℕ)
        → laws.view.IsBegun c
        → length blob ≡ len
        → db.insert_node c "INSERT OR REPLACE INTO nodes (level, idx, node) VALUES (?1, ?2, ?3)"
            level idx blob
          ≡ (c', failed code)
        → Refusal
    metadata_refused :
        (c c' : C) (blob : List ℕ) (code : ℕ)
        → laws.view.IsBegun c
        → db.insert_metadata c "INSERT OR REPLACE INTO metadata (key, value) VALUES (?1, ?2)"
            "NUM_LEAVES" blob
          ≡ (c', failed code)
        → Refusal
    commit_refused :
        (c c' : C) (code : ℕ) → laws.view.IsBegun c → db.commit c ≡ (c', failed code) → Refusal

  abbrev pub look : C → ℕ → ℕ → Option Node
  look c l i = node_of (laws.view.stored c l i)

  -- The connection is ready, each node of the database is whole, and it has the number of leaves.
  pub record IsValid (s : SqliteStore C) : Type 0 where
    pub ready : laws.view.IsReady s.conn
    pub whole : (l i : ℕ) (n : Node) → look s.conn l i ≡ some n → length n.bytes ≡ len
    pub word : s.num_leaves < 2 ^ 64
    pub saved : read_count (laws.view.stored_count s.conn) ≡ ok s.num_leaves
