-- ===== src/Sqlite/Reads.antt =====
-- What `get` of a valid `SqliteStore` answers.
use rs_merkle_tree.Sqlite.Valid.{ConnectionLaws, IsValid, look}
use rs_merkle_tree.Sqlite.{
  decode_node, Connection, SqliteStore, decode_row, decode_rows, select, get,
}
use rs_merkle_tree.Sqlite.Query.{
  max_params, select_sql, pairs_of, length-pairs_of, build_values_sql_and_binds-triples,
}
use rs_merkle_tree.KeyValue.{done}
use rs_merkle_tree.Store.{AreWords, look_each}
use rs_merkle_tree.Node.{len}
use rs_merkle_tree.Run.{store_error, length_mismatch, ok, err, too_many_levels}
use rs_merkle_tree.Base.{
  ◌∙◌, ◌≢◌, true, ℕ, ◌≤◌, ◌<◌, ◌≡◌, refl, inl, inr, List, [], ◌∷◌, map, arith, ltb, ◌==◌,
  if◌then◌else◌, ==_iff, Bool-cases, Option-cases, length,
}

module _ {C : Type 0} {db : Connection C} (laws : ConnectionLaws db) where
  decode_row_ok :
      (s : SqliteStore C) (l i : ℕ)
      → IsValid laws s
      → decode_row (done (laws.view.stored s.conn l i)) ≡ ok (look laws s.conn l i)
  unfolding decode_row decode_node
  decode_row_ok s l i v = elim (Option-cases (laws.view.stored s.conn l i)) [
    | inl absent ↦ rw absent
    | inr (blob, found) ↦
        let size = v.whole l i (record { bytes = blob }) (rw found) in
        let test : (length blob == len) ≡ true = ground arith in rw (found, test)
  ]

  decode_rows_ok :
      (s : SqliteStore C) (levels indices : List ℕ)
      → IsValid laws s
      → decode_rows
          (map (λ key. done (laws.view.stored s.conn key.0 key.1)) (pairs_of levels indices))
        ≡ ok (look_each (look laws s.conn) levels indices)
  unfolding decode_rows
  decode_rows_ok s [] indices v = refl
  decode_rows_ok s (l ∷ levels) [] v = refl
  decode_rows_ok s (l ∷ levels) (i ∷ indices) v =
      rw (decode_row_ok s l i v, decode_rows_ok s levels indices v)

  select_ok :
      (s : SqliteStore C) (levels indices : List ℕ)
      → IsValid laws s
      → AreWords levels indices
      → 0 < length levels
      → length levels ≤ max_params
      → length levels ≡ length indices
      → select db s.conn levels indices ≡ ok (look_each (look laws s.conn) levels indices)
  unfolding select select_sql
  select_ok s levels indices v words some_level few same =
      let keys = pairs_of levels indices in
      let size = length-pairs_of levels indices same in
      let found = laws.select_ok s.conn keys v.ready (omega (arith, size)) (omega (arith, size)) in
      rw
        (
          build_values_sql_and_binds-triples levels indices same (omega arith) words,
          laws.prepare_select_ok s.conn (length levels) v.ready (omega arith) (omega arith),
          rw size at found,
        )
        (decode_rows_ok s levels indices v)

  -- Over a lawful connection, `get` of a valid store, for levels and indices of their machine
  -- words, returns what each position reads for at most `MAX_PARAMS` positions; it refuses more,
  -- and two lists of different lengths.
  pub sqlite_get-look :
      (s : SqliteStore C) (levels indices : List ℕ)
      → IsValid laws s
      → AreWords levels indices
      → get db s levels indices ≡ (
          if length levels == length indices
          then (if ltb 256 (length levels)
              then err (store_error (too_many_levels 256))
              else ok (look_each (look laws s.conn) levels indices))
          else err (length_mismatch (length levels) (length indices)))
  unfolding get
  sqlite_get-look s [] indices v words = ground arith
  sqlite_get-look s (l ∷ levels) indices v words =
      elim (Bool-cases (length (l ∷ levels) == length indices)) [
        | inr different ↦ rw different
        | inl same ↦ elim (Bool-cases (ltb 256 (length (l ∷ levels)))) [
          | inl many ↦ rw (same, many) (ground arith)
          | inr few ↦
              let found =
                select_ok s (l ∷ levels) indices v words (omega arith) (ground arith)
                  ((==_iff (length (l ∷ levels)) (length indices)).0 same) in
              rw (same, few, found) (ground arith)
        ]
      ]

  pub get_ok :
      (s : SqliteStore C) (levels indices : List ℕ)
      → IsValid laws s
      → AreWords levels indices
      → length levels ≤ 256
      → length levels ≡ length indices
      → get db s levels indices ≡ ok (look_each (look laws s.conn) levels indices)
  get_ok s levels indices v words few same = sqlite_get-look s levels indices v words ∙ ground arith

  pub get_mismatch :
      (s : SqliteStore C) (levels indices : List ℕ)
      → length levels ≢ length indices
      → get db s levels indices ≡ err (length_mismatch (length levels) (length indices))
  unfolding get
  get_mismatch s levels indices h = ground arith
