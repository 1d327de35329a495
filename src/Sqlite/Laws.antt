-- ===== src/Sqlite/Laws.antt =====
-- A `SqliteStore` over a lawful connection keeps the promise of the trait.
use rs_merkle_tree.Sqlite.Writes.{shown, Halted, Written, write_nodes-Ends}
use rs_merkle_tree.Sqlite.Valid.{
  SameStored, SameStored-trans, Stopped, Refusal, transaction_refused, commit_refused,
  ConnectionLaws, IsValid, look,
}
use rs_merkle_tree.Sqlite.Reads.{get_ok, get_mismatch}
use rs_merkle_tree.Run.Method.{and_then, Ends, succeeds, fails, and_then}
use rs_merkle_tree.Sqlite.{
  committed, get_num_leaves, sqlite_store, put, finish, write_nodes, settle, Connection,
  SqliteStore,
}
use rs_merkle_tree.KeyValue.Batches.{node_of}
use rs_merkle_tree.KeyValue.{Reply, Replies, granted, denied, failed, done, reply_ok, read_count}
use rs_merkle_tree.Store.{write_run-whole, StoreLaws, IsRun, write_run}
use rs_merkle_tree.Node.{Node}
use rs_merkle_tree.Run.{MerkleError, store_error, database, Run, ok}
use rs_merkle_tree.Base.{
  sym, max, ◌+◌, ap, ◌∙◌, ℕ, ◌^◌, ◌≡◌, refl, List, [], ◌∷◌, arith, ◌==◌, if◌then◌else◌, length,
}

module _ {C : Type 0} {db : Connection C} (laws : ConnectionLaws db) where
  -- The outcome of a `put` of a valid store, when the run goes through and when it does not.
  abbrev pub Stored : SqliteStore C → ℕ → ℕ → List Node → SqliteStore C → Unit {0} → Type 0
  Stored s level start nodes s' _ =
      IsValid laws s'
      × ((l i : ℕ) → look laws s'.conn l i ≡ write_run (look laws s.conn) level start nodes l i)
      × (get_num_leaves db s' ≡ (
          if level == 0
          then max (get_num_leaves db s) (start + length nodes)
          else get_num_leaves db s))

  abbrev pub Unchanged : SqliteStore C → SqliteStore C → MerkleError → Type 0
  Unchanged s s' _ =
      IsValid laws s'
      × ((l i : ℕ) → look laws s'.conn l i ≡ look laws s.conn l i)
      × (get_num_leaves db s' ≡ get_num_leaves db s)
      × Refusal laws

  Unchanged-SameStored :
      (s s' : SqliteStore C) (e : MerkleError)
      → IsValid laws s
      → laws.view.IsReady s'.conn
      → SameStored laws.view s.conn s'.conn
      → s'.num_leaves ≡ s.num_leaves
      → Refusal laws
      → Unchanged s s' e
  unfolding get_num_leaves
  Unchanged-SameStored s s' e v ready same count refusal =
      let read : (l i : ℕ) → look laws s'.conn l i ≡ look laws s.conn l i =
        λ l i. ap node_of (same.0 l i) in
      (
        record {
          ready = ready;
          whole = λ l i m found. v.whole l i m (sym (read l i) ∙ found);
          word = rw count v.word;
          saved = ap read_count same.1 ∙ v.saved ∙ ap ok (sym count);
        },
        read,
        count,
        refusal,
      )

  -- A transaction on the database of a valid store, of a run that the tree may write: `c` is the
  -- connection after its begin.
  module _ (s : SqliteStore C) (level start : ℕ) (nodes : List Node) (v : IsValid laws s)
      (run : IsRun (look laws s.conn) level start nodes) (c : C)
      (kept : SameStored laws.view s.conn c)
      (begun : (l i : ℕ) → shown laws c l i ≡ look laws s.conn l i) where
    rolled_back :
        (c' : C) (e : MerkleError)
        → Halted laws c c'
        → Unchanged s (record s { conn = db.rollback c' }) e
    rolled_back c' e ((state, same), refusal) =
        let (ready, same') = laws.rollback_ok c' state in
        Unchanged-SameStored s (record s { conn = db.rollback c' }) e v ready
          (SameStored-trans laws.view s.conn c (db.rollback c') kept
            (SameStored-trans laws.view c c' (db.rollback c') same same'))
          refl refusal

    committed-Ends :
        (c' : C) (num_leaves : ℕ) (w : C × Reply (Unit {0}))
        → Written laws c s.num_leaves level start nodes c' num_leaves
        → db.commit c' ≡ w
        → Replies
            (λ c2.
              laws.view.IsReady c2
              × ((l i : ℕ) → laws.view.stored c2 l i ≡ laws.view.pending c' l i)
              × (laws.view.stored_count c2 ≡ laws.view.pending_count c'))
            (λ c2 _. Stopped laws.view c' c2)
            w
        → Ends (Stored s level start nodes) (Unchanged s) (settle db s (committed db num_leaves w))
    unfolding get_num_leaves
    committed-Ends c' num_leaves (c2, done _) (begun1, same, shown', saved, count) e
          (granted (ready2, written, count2)) =
        let read : (l i : ℕ)
            → look laws c2 l i ≡ write_run (look laws s.conn) level start nodes l i =
          λ l i. ap node_of (written l i) ∙ shown' l i ∙ ground (arith, begun l i) in
        succeeds (
          record {
            ready = ready2;
            whole = λ l i m found.
                write_run-whole (look laws s.conn) level start nodes run.are_nodes v.whole l i m
                  (sym (read l i) ∙ found);
            word = ground (arith, count, v.word, run.end_fits);
            saved = ap read_count count2 ∙ saved;
          },
          read,
          count,
        )
    committed-Ends c' num_leaves (c2, failed code) (begun1, same, shown', saved, count) e
          (denied (state, same2)) =
        fails (
          rolled_back c2 (store_error (database code)) (
            (state, SameStored-trans laws.view c c' c2 same same2),
            commit_refused c' c2 code begun1 e,
          ))

    finish-Ends :
        (r : C × Run ℕ)
        → Ends (Written laws c s.num_leaves level start nodes) (λ c' _. Halted laws c c') r
        → Ends (Stored s level start nodes) (Unchanged s) (settle db s (finish db r))
    unfolding finish
    finish-Ends r (succeeds {s = c'} {a = n} written) =
        committed-Ends c' n (db.commit c') written refl (laws.commit_ends c' written.0)
    finish-Ends r (fails {s = c'} {e = e} halted) = fails (rolled_back c' e halted)

  begun-Ends :
      (s : SqliteStore C) (level start : ℕ) (nodes : List Node)
      → IsValid laws s
      → IsRun (look laws s.conn) level start nodes
      → (w : C × Reply (Unit {0})) → db.transaction s.conn ≡ w
      → Replies
          (λ c.
            laws.view.IsBegun c
            × SameStored laws.view s.conn c
            × ((l i : ℕ) → laws.view.pending c l i ≡ laws.view.stored s.conn l i)
            × (laws.view.pending_count c ≡ laws.view.stored_count s.conn))
          (λ c _. laws.view.IsReady c × SameStored laws.view s.conn c)
          w
      → Ends (Stored s level start nodes) (Unchanged s) (
          settle db s (
            and_then
              (w.0, reply_ok w.1)
              (λ _ c. finish db (write_nodes db s.num_leaves level start nodes c))))
  begun-Ends s level start nodes v run (c, done _) e (granted (begun1, kept, same, count)) =
      finish-Ends s level start nodes v run c kept (λ l i. ap node_of (same l i))
        (write_nodes db s.num_leaves level start nodes c)
        (write_nodes-Ends laws s.num_leaves level start nodes c begun1
          (ap read_count count ∙ v.saved) v.word run.are_nodes run.level_fits run.end_fits)
  begun-Ends s level start nodes v run (c, failed code) e (denied (ready, kept)) = fails (
      Unchanged-SameStored s (record s { conn = c }) (store_error (database code)) v ready kept refl
        (transaction_refused s.conn c code v.ready e))

  -- Over a lawful connection, a valid store takes each run that the tree may write, or a call of
  -- the transaction fails. It is valid again; where it takes the run, the run is read at its place,
  -- every other position reads as before, and the number of leaves grows to the end of a run of
  -- level 0; where a call fails, every position reads as before and the number of leaves is
  -- unchanged.
  pub sqlite_put-Ends :
      (s : SqliteStore C) (level start : ℕ) (nodes : List Node)
      → IsValid laws s
      → IsRun (look laws s.conn) level start nodes
      → Ends (Stored s level start nodes) (Unchanged s) (put db level start nodes s)
  unfolding put
  sqlite_put-Ends s level start [] v run = absurd (omega (arith, run.nonempty))
  sqlite_put-Ends s level start (n ∷ nodes) v run =
      begun-Ends s level start (n ∷ nodes) v run (db.transaction s.conn) refl
        (laws.transaction_ends s.conn v.ready)

  abbrev pub sqlite_laws : StoreLaws (sqlite_store db)
  sqlite_laws = record {
    IsValid = IsValid laws;
    look = λ s. look laws s.conn;
    capacity = 2 ^ 64;
    get_ok = get_ok laws;
    get_mismatch = get_mismatch laws;
    Refuses = Refusal laws;
    put_ends = λ s level start nodes v run _. sqlite_put-Ends s level start nodes v run;
  }
