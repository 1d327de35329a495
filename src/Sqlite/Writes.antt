-- ===== src/Sqlite/Writes.antt =====
-- What `put` of a `SqliteStore` writes inside of its transaction, over a lawful connection.
use rs_merkle_tree.Sqlite.Valid.{
  SameStored, SameStored-trans, Stopped, Refusal, node_refused, metadata_refused, ConnectionLaws,
}
use rs_merkle_tree.KeyValue.Keys.{be_bytes, from_be_bytes-be_bytes}
use rs_merkle_tree.Run.Method.{Ends, Ends-bind, Ends-map, succeeds, fails}
use rs_merkle_tree.Sqlite.{put, write_nodes, as_i64, insert_nodes, Connection}
use rs_merkle_tree.KeyValue.Batches.{node_of}
use rs_merkle_tree.KeyValue.{Reply, Replies, granted, denied, failed, reply_ok, read_count}
use rs_merkle_tree.Store.{write_run, write_run-cons}
use rs_merkle_tree.Node.{IsNode, Node}
use rs_merkle_tree.Run.{ok}
use rs_merkle_tree.Base.{
  max, suc, ◌+◌, ◌%◌, ap, ◌∙◌, All, ℕ, ◌^◌, ◌<◌, ◌≡◌, refl, inl, inr, Option, List, [], ◌∷◌, arith,
  ◌==◌, if◌then◌else◌, Bool-cases, length,
}

-- A call that ends, with `map_err(db_error)?`.
pub call-Ends :
    {C A : Type 0} {P : C → Type 0} {Q : C → ℕ → Type 0} {Q' : C → Type 0} {r : C × Reply A}
    → Replies P Q r
    → ((c : C) (code : ℕ) → r ≡ (c, failed code) → Q c code → Q' c)
    → Ends (λ c _. P c) (λ c _. Q' c) (r.0, reply_ok r.1)
call-Ends (granted p) k = succeeds p
call-Ends (denied q) k = fails (k _ _ refl q)

module _ {C : Type 0} {db : Connection C} (laws : ConnectionLaws db) where
  -- What the connection shows at a position.
  abbrev pub shown : C → ℕ → ℕ → Option Node
  shown c l i = node_of (laws.view.pending c l i)

  -- A transaction that a call has stopped, of a database that has what it had at `c0`.
  abbrev pub Halted : C → C → Type 0
  Halted c0 c = Stopped laws.view c0 c × Refusal laws

  insert_nodes-Ends :
      (c0 : C) (level start offset p : ℕ) (nodes : List Node) (c : C)
      → laws.view.IsBegun c
      → SameStored laws.view c0 c
      → All IsNode nodes
      → level < 2 ^ 32
      → start + offset ≡ p
      → p + length nodes < 2 ^ 64
      → Ends
          (λ c' _.
            laws.view.IsBegun c'
            × SameStored laws.view c0 c'
            × ((l i : ℕ) → shown c' l i ≡ write_run (shown c) level p nodes l i)
            × (laws.view.pending_count c' ≡ laws.view.pending_count c))
          (λ c' _. Halted c0 c')
          (insert_nodes db level start offset nodes c)
  unfolding insert_nodes
  insert_nodes-Ends c0 level start offset p [] c begun kept are_nodes small at fits =
      succeeds (begun, kept, (λ l i. ground arith), refl)
  insert_nodes-Ends c0 level start offset p (n ∷ nodes) c begun kept are_nodes small at fits =
      let narrow : as_i64 level ≡ level = omega arith in
      let place : as_i64 ((start + offset) % 2 ^ 64) ≡ p = omega arith in
      rw (narrow, place)
        (Ends-bind
          (call-Ends (laws.insert_node_ends c level p n.bytes begun) (λ c1 code e (state, same1). (
            (state, SameStored-trans laws.view c0 c c1 kept same1),
            node_refused c c1 level p n.bytes code begun are_nodes.0.0 e,
          )))
          λ c1 _ (begun1, same1, put, count).
            Ends-map
              (insert_nodes-Ends c0 level start (suc offset) (suc p) nodes c1 begun1
                (SameStored-trans laws.view c0 c c1 kept same1) are_nodes.1 small (omega arith)
                (omega arith))
              (λ c' _ (begun', kept', shown', count'). (
                begun',
                kept',
                (λ l i.
                    shown' l i
                    ∙ write_run-cons (shown c) (shown c1) level p n nodes
                        (λ l i. ap node_of (put l i) ∙ ground arith) l i),
                count' ∙ count,
              ))
              (λ c' e q. q))

  -- What the transaction has made of the state that it began in.
  abbrev pub Written : C → ℕ → ℕ → ℕ → List Node → C → ℕ → Type 0
  Written c num_leaves level start nodes c' num_leaves' =
      laws.view.IsBegun c'
      × SameStored laws.view c c'
      × ((l i : ℕ) → shown c' l i ≡ write_run (shown c) level start nodes l i)
      × (read_count (laws.view.pending_count c') ≡ ok num_leaves')
      × (num_leaves' ≡ (if level == 0 then max num_leaves (start + length nodes) else num_leaves))

  -- A run that the tree may write is written, or a call fails.
  pub write_nodes-Ends :
      (num_leaves level start : ℕ) (nodes : List Node) (c : C)
      → laws.view.IsBegun c
      → read_count (laws.view.pending_count c) ≡ ok num_leaves
      → num_leaves < 2 ^ 64
      → All IsNode nodes
      → level < 2 ^ 32
      → start + length nodes < 2 ^ 64
      → Ends
          (Written c num_leaves level start nodes)
          (λ c' _. Halted c c')
          (write_nodes db num_leaves level start nodes c)
  unfolding write_nodes
  write_nodes-Ends num_leaves level start nodes c begun saved word are_nodes small fits =
      let exact : (start + length nodes) % 2 ^ 64 ≡ start + length nodes = omega arith in
      let inserted =
        insert_nodes-Ends c level start 0 start nodes c begun ((λ l i. refl), refl) are_nodes small
          (omega arith) fits in
      rw (laws.prepare_insert_ok c begun, exact)
        (Ends-bind inserted λ c1 _ (begun1, kept1, shown1, count1). elim (Bool-cases (level == 0)) [
          | inl bottom ↦
              let total = max num_leaves (start + length nodes) in
              let stored = laws.insert_metadata_ends c1 (be_bytes 8 total) begun1 in
              rw bottom (
                Ends-bind
                  (call-Ends stored (λ c2 code e (state, same2). (
                    (state, SameStored-trans laws.view c c1 c2 kept1 same2),
                    metadata_refused c1 c2 (be_bytes 8 total) code begun1 e,
                  )))
                  (λ c2 _ (begun2, same2, same, count2). succeeds (
                    begun2,
                    SameStored-trans laws.view c c1 c2 kept1 same2,
                    (λ l i. ap node_of (same l i) ∙ shown1 l i),
                    ap read_count count2 ∙ ap ok (from_be_bytes-be_bytes 8 total (ground arith)),
                    ground arith,
                  )))
          | inr above ↦
              rw above
                (succeeds (begun1, kept1, shown1, ap read_count count1 ∙ saved, ground arith))
        ])
