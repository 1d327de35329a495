-- ===== src/Sled.antt =====
-- src/stores/sled_store.rs. The database is a parameter, with `clear` beside what it shares with
-- the other one.
pub mod Reads
pub mod Laws
pub mod Reopen
use rs_merkle_tree.KeyValue.Keys.{be_bytes, num_leaves_key}
use rs_merkle_tree.KeyValue.{
  Batch, Database, read_count, Reply, reply_expect, reply_ok, failed, done,
}
use rs_merkle_tree.Store.{Store}
use rs_merkle_tree.Run.Method.{Method}
use rs_merkle_tree.Node.{Node, len}
use rs_merkle_tree.Run.{
  ◌>>◌, database, invalid_node_length, store_error, length_mismatch, Run, ok, err, index, ◌>>=◌,
}
use rs_merkle_tree.Base.{
  ℕ, suc, ◌+◌, ◌%◌, ◌^◌, max, Option, none, some, List, [], ◌∷◌, ◌++◌, ◌==◌, if◌then◌else◌, length,
  replicate, copy_at,
}

pub record SledStore (D : Type 0) : Type 0 where
  pub db : D
  pub num_leaves : ℕ

-- `SledStore::encode_key`
unfoldable pub encode_key : ℕ → ℕ → List ℕ
encode_key level index =
    let key = replicate 12 0 in
    let key = copy_at key 0 (be_bytes 4 level) in copy_at key 4 (be_bytes 8 index)

-- `SledStore::decode_node`
unfoldable pub decode_node : List ℕ → Run Node
decode_node bytes =
    if length bytes == len
    then ok (record { bytes = bytes })
    else err (store_error invalid_node_length)

-- The batch of `put`, from the node at `offset` on.
unfoldable pub node_batch : ℕ → ℕ → ℕ → List Node → Batch
unfolding encode_key
node_batch level start offset [] = []
node_batch level start offset (n ∷ nodes) =
    (encode_key level ((start + offset) % 2 ^ 64), n.bytes)
    ∷ node_batch level start (suc offset) nodes

module _ {D : Type 0} (db : Database D) where
  -- `SledStore::new`, with the database that it opened. A store with no leaves is cleared.
  unfoldable pub new : (D → D × Reply (Unit {0})) → D → Run (SledStore D)
  new clear d = do
    saved ← reply_expect (db.get d num_leaves_key)
    num_leaves ← read_count saved
    if num_leaves == 0
        then (do
          reply_expect (clear d).1
          ok (record { db = (clear d).0; num_leaves = num_leaves }))
        else ok (record { db = d; num_leaves = num_leaves })

  -- The closure of `get`.
  unfoldable pub read_node : D → ℕ → ℕ → Run (Option Node)
  read_node d level idx = do
    found ← reply_ok (db.get d (encode_key level idx))
    elim found [ none ↦ ok none | some bytes ↦ decode_node bytes >>= λ n. ok (some n) ]

  -- `.iter().zip(indices).map(…).collect()`: the first error ends it.
  unfoldable pub read_each : D → List ℕ → List ℕ → Run (List (Option Node))
  read_each d (level ∷ levels) (idx ∷ indices) = do
    node ← read_node d level idx
    nodes ← read_each d levels indices
    ok (node ∷ nodes)
  read_each d _ _ = ok []

  unfoldable pub get : SledStore D → List ℕ → List ℕ → Run (List (Option Node))
  unfolding read_each
  get s levels indices =
      if length levels == length indices
      then read_each s.db levels indices
      else err (length_mismatch (length levels) (length indices))

  -- `apply_batch(batch).map_err(db_error)?; self.num_leaves = num_leaves`
  abbrev pub settle : SledStore D → ℕ → D × Reply (Unit {0}) → SledStore D × Run (Unit {0})
  settle s num_leaves (d, done _) = (record { db = d; num_leaves = num_leaves }, ok tt)
  settle s num_leaves (d, failed code) = (record s { db = d }, err (store_error (database code)))

  unfoldable pub put : ℕ → ℕ → List Node → Method (SledStore D) (Unit {0})
  put level start [] s = (s, ok tt)
  put level start (n ∷ nodes) s =
      let nodes = n ∷ nodes in
      let batch = node_batch level start 0 nodes in
      let num_leaves =
        if level == 0 then max s.num_leaves ((start + length nodes) % 2 ^ 64) else s.num_leaves in
      let batch = batch ++ (num_leaves_key, be_bytes 8 num_leaves) ∷ [] in
      settle s num_leaves (db.write s.db batch)

  unfoldable pub get_num_leaves : SledStore D → ℕ
  get_num_leaves s = s.num_leaves

  abbrev pub sled_store : Store (SledStore D)
  sled_store = record { get = get; put = put; get_num_leaves = get_num_leaves }
