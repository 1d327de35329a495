-- ===== src/Sqlite/Atomic.antt =====
-- A `put` that fails changes nothing in the database of a `SqliteStore`, whatever it was to write.
use rs_merkle_tree.Sqlite.Valid.{ConnectionLaws, SameStored, SameStored-trans, Stopped}
use rs_merkle_tree.Sqlite.Writes.{call-Ends}
use rs_merkle_tree.Sqlite.{
  get_num_leaves, settle, committed, put, SqliteStore, Connection, insert_nodes, write_nodes,
  finish,
}
use rs_merkle_tree.Sqlite.Query.{as_i64}
use rs_merkle_tree.KeyValue.Keys.{be_bytes}
use rs_merkle_tree.KeyValue.{done, Reply, Replies, granted, denied, reply_ok, failed}
use rs_merkle_tree.Run.Method.{and_then, Ends, Ends-bind, Ends-cases, succeeds, fails}
use rs_merkle_tree.Node.{Node}
use rs_merkle_tree.Run.{MerkleError, Run, err}
use rs_merkle_tree.Base.{
  inr, length, max, sym, inl, ◌==◌, ap, Bool-cases, ℕ, suc, ◌+◌, ◌%◌, ◌^◌, ◌≡◌, refl, ◌∙◌, List, [],
  ◌∷◌,
}

module _ {C : Type 0} {db : Connection C} (laws : ConnectionLaws db) where
  -- A transaction goes on, of a database that has what it had at `c0`.
  abbrev GoesOn : C → C → Type 0
  GoesOn c0 c = laws.view.IsBegun c × SameStored laws.view c0 c

  -- A connection without a transaction, to a database that has what it had at `c0`.
  abbrev Restored : C → C → Type 0
  Restored c0 c = laws.view.IsReady c × SameStored laws.view c0 c

  insert_nodes-GoesOn :
      (c0 : C) (level start offset : ℕ) (nodes : List Node) (c : C)
      → GoesOn c0 c
      → Ends
          (λ c' _. GoesOn c0 c')
          (λ c' _. Stopped laws.view c0 c')
          (insert_nodes db level start offset nodes c)
  unfolding insert_nodes
  insert_nodes-GoesOn c0 level start offset [] c g = succeeds g
  insert_nodes-GoesOn c0 level start offset (n ∷ nodes) c (begun, kept) =
      Ends-bind
        (call-Ends
          (laws.insert_node_ends c (as_i64 level) (as_i64 ((start + offset) % 2 ^ 64)) n.bytes
            begun)
          (λ c1 code e (state, same). (state, SameStored-trans laws.view c0 c c1 kept same)))
        (λ c1 _ (begun1, same, _, _).
          insert_nodes-GoesOn c0 level start (suc offset) nodes c1
            (begun1, SameStored-trans laws.view c0 c c1 kept same))

  write_nodes-GoesOn :
      (c0 : C) (num_leaves level start : ℕ) (nodes : List Node) (c : C)
      → GoesOn c0 c
      → Ends
          (λ c' _. GoesOn c0 c')
          (λ c' _. Stopped laws.view c0 c')
          (write_nodes db num_leaves level start nodes c)
  unfolding write_nodes
  write_nodes-GoesOn c0 num_leaves level start nodes c g = rw (laws.prepare_insert_ok c g.0) (
      Ends-bind (insert_nodes-GoesOn c0 level start 0 nodes c g) λ c1 _ (begun, kept).
        elim (Bool-cases (level == 0)) [
          | inl bottom ↦
              let total = max num_leaves ((start + length nodes) % 2 ^ 64) in
              rw bottom (
                Ends-bind
                  (call-Ends (laws.insert_metadata_ends c1 (be_bytes 8 total) begun)
                    (λ c2 code e (state, same).
                      (state, SameStored-trans laws.view c0 c1 c2 kept same)))
                  (λ c2 _ (begun2, same, _, _).
                    succeeds (begun2, SameStored-trans laws.view c0 c1 c2 kept same)))
          | inr above ↦ rw above (succeeds (begun, kept))
        ])

  rolled_back : (c0 c : C) → Stopped laws.view c0 c → Restored c0 (db.rollback c)
  rolled_back c0 c (state, same) =
      let (ready, same') = laws.rollback_ok c state in
      (ready, SameStored-trans laws.view c0 c (db.rollback c) same same')

  committed-Restored :
      (s : SqliteStore C) (c : C) (num_leaves : ℕ) (w : C × Reply (Unit {0}))
      → SameStored laws.view s.conn c
      → Replies
          (λ c'.
            laws.view.IsReady c'
            × ((l i : ℕ) → laws.view.stored c' l i ≡ laws.view.pending c l i)
            × (laws.view.stored_count c' ≡ laws.view.pending_count c))
          (λ c' _. Stopped laws.view c c')
          w
      → Ends
          (λ _ _. Unit {0})
          (λ s' _. (s'.num_leaves ≡ s.num_leaves) × Restored s.conn s'.conn)
          (settle db s (committed db num_leaves w))
  committed-Restored s c num_leaves (c', done _) kept (granted _) = succeeds tt
  committed-Restored s c num_leaves (c', failed code) kept (denied (state, same)) =
      fails (refl, rolled_back s.conn c' (state, SameStored-trans laws.view s.conn c c' kept same))

  finish-Restored :
      (s : SqliteStore C) (r : C × Run ℕ)
      → Ends (λ c _. GoesOn s.conn c) (λ c _. Stopped laws.view s.conn c) r
      → Ends
          (λ _ _. Unit {0})
          (λ s' _. (s'.num_leaves ≡ s.num_leaves) × Restored s.conn s'.conn)
          (settle db s (finish db r))
  unfolding finish
  finish-Restored s r (succeeds {s = c} {a = n} (begun, kept)) =
      committed-Restored s c n (db.commit c) kept (laws.commit_ends c begun)
  finish-Restored s r (fails {s = c} stopped) = fails (refl, rolled_back s.conn c stopped)

  begun-Restored :
      (s : SqliteStore C) (level start : ℕ) (nodes : List Node) (w : C × Reply (Unit {0}))
      → Replies
          (λ c.
            laws.view.IsBegun c
            × SameStored laws.view s.conn c
            × ((l i : ℕ) → laws.view.pending c l i ≡ laws.view.stored s.conn l i)
            × (laws.view.pending_count c ≡ laws.view.stored_count s.conn))
          (λ c _. Restored s.conn c)
          w
      → Ends
          (λ _ _. Unit {0})
          (λ s' _. (s'.num_leaves ≡ s.num_leaves) × Restored s.conn s'.conn)
          (settle db s (
            and_then
              (w.0, reply_ok w.1)
              (λ _ c. finish db (write_nodes db s.num_leaves level start nodes c))))
  begun-Restored s level start nodes (c, done _) (granted (begun, kept, _, _)) =
      finish-Restored s (write_nodes db s.num_leaves level start nodes c)
        (write_nodes-GoesOn s.conn s.num_leaves level start nodes c (begun, kept))
  begun-Restored s level start nodes (c, failed code) (denied restored) = fails (refl, restored)

  put-Restored :
      (s : SqliteStore C) (level start : ℕ) (nodes : List Node)
      → laws.view.IsReady s.conn
      → Ends
          (λ _ _. Unit {0})
          (λ s' _. (s'.num_leaves ≡ s.num_leaves) × Restored s.conn s'.conn)
          (put db level start nodes s)
  unfolding put
  put-Restored s level start [] ready = succeeds tt
  put-Restored s level start (n ∷ nodes) ready =
      begun-Restored s level start (n ∷ nodes) (db.transaction s.conn)
        (laws.transaction_ends s.conn ready)

  -- Over a connection with these laws that is ready (both tables are there and no transaction is
  -- begun), whatever the level, the start, the nodes and the number of leaves in memory: a `put`
  -- that returns an error leaves the number of leaves as it was, no transaction begun, and the
  -- database with the nodes and the count that it had.
  pub sqlite_put_atomic :
      (s s' : SqliteStore C) (level start : ℕ) (nodes : List Node) (e : MerkleError)
      → laws.view.IsReady s.conn
      → put db level start nodes s ≡ (s', err e)
      → (get_num_leaves db s' ≡ get_num_leaves db s)
        × laws.view.IsReady s'.conn
        × SameStored laws.view s.conn s'.conn
  unfolding get_num_leaves
  sqlite_put_atomic s s' level start nodes e ready failure =
      elim (Ends-cases (put-Restored s level start nodes ready)) [
        | inl (t, a, returned, _) ↦ absurd (cc (sym returned ∙ failure))
        | inr (t, e', returned, restored) ↦
            let same : t ≡ s' = ap (λ r. r.0) (sym returned ∙ failure) in
            let (count, (ready', kept)) = rw same at restored in (count, ready', kept)
      ]
