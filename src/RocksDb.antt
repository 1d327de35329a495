-- ===== src/RocksDb.antt =====
-- src/stores/rocksdb_store.rs. The database is a parameter, with `multi_get` and `flush` beside
-- what it shares with the other one.
pub mod Laws
use rs_merkle_tree.Sled.{SledStore}
use rs_merkle_tree.KeyValue.Keys.{be_bytes, num_leaves_key}
use rs_merkle_tree.KeyValue.{Key, Batch, Database, read_count, Reply, reply_expect, failed, done}
use rs_merkle_tree.Store.{Store}
use rs_merkle_tree.Run.Method.{Method}
use rs_merkle_tree.Node.{Node, len}
use rs_merkle_tree.Run.{
  database, ◌>>◌, invalid_node_length, store_error, length_mismatch, Run, ok, err, index, ◌>>=◌,
}
use rs_merkle_tree.Base.{
  ℕ, suc, ◌+◌, ◌%◌, ◌^◌, max, Option, none, some, List, [], ◌∷◌, ◌++◌, ◌==◌, if◌then◌else◌, length,
  replicate, copy_at,
}

-- The same two fields as in `SledStore`.
abbrev pub RocksDbStore : Type 0 → Type 0
RocksDbStore D = SledStore D

-- `RocksDbStore::encode_key`
unfoldable pub encode_key : ℕ → ℕ → List ℕ
encode_key level index =
    let key = replicate 12 0 in
    let key = copy_at key 0 (be_bytes 4 level) in copy_at key 4 (be_bytes 8 index)

-- `RocksDbStore::decode_node`
unfoldable pub decode_node : List ℕ → Run Node
decode_node bytes =
    if length bytes == len
    then ok (record { bytes = bytes })
    else err (store_error invalid_node_length)

-- The keys of `get`.
unfoldable pub keys : List ℕ → List ℕ → List Key
keys (level ∷ levels) (idx ∷ indices) = encode_key level idx ∷ keys levels indices
keys _ _ = []

-- One answer of `multi_get`, and all of them: the first error ends it.
unfoldable pub decode : Reply (Option (List ℕ)) → Run (Option Node)
decode (done none) = ok none
decode (done (some slice)) = decode_node slice >>= λ n. ok (some n)
decode (failed code) = err (store_error (database code))

unfoldable pub decode_all : List (Reply (Option (List ℕ))) → Run (List (Option Node))
unfolding decode
decode_all [] = ok []
decode_all (reply ∷ replies) = do node ← decode reply; nodes ← decode_all replies; ok (node ∷ nodes)

-- The batch of `put`, from the node at `offset` on.
unfoldable pub node_batch : ℕ → ℕ → ℕ → List Node → Batch
node_batch level start offset [] = []
node_batch level start offset (n ∷ nodes) =
    (encode_key level ((start + offset) % 2 ^ 64), n.bytes)
    ∷ node_batch level start (suc offset) nodes

module _ {D : Type 0} (db : Database D) where
  -- `RocksDbStore::new`, with the database that it opened.
  unfoldable pub new : (D → Reply (Unit {0})) → D → Run (RocksDbStore D)
  new flush d = do
    saved ← reply_expect (db.get d num_leaves_key)
    num_leaves ← read_count saved
    if num_leaves == 0 then reply_expect (flush d) else ok tt
    ok (record { db = d; num_leaves = num_leaves })

  unfoldable pub get :
      (D → List Key → List (Reply (Option (List ℕ))))
      → RocksDbStore D
      → List ℕ
      → List ℕ
      → Run (List (Option Node))
  unfolding keys decode_all
  get multi_get s levels indices =
      if length levels == length indices
      then decode_all (multi_get s.db (keys levels indices))
      else err (length_mismatch (length levels) (length indices))

  -- `write(batch).map_err(db_error)?; self.num_leaves = num_leaves`
  abbrev pub settle : RocksDbStore D → ℕ → D × Reply (Unit {0}) → RocksDbStore D × Run (Unit {0})
  settle s num_leaves (d, done _) = (record { db = d; num_leaves = num_leaves }, ok tt)
  settle s num_leaves (d, failed code) = (record s { db = d }, err (store_error (database code)))

  unfoldable pub put : ℕ → ℕ → List Node → Method (RocksDbStore D) (Unit {0})
  put level start [] s = (s, ok tt)
  put level start (n ∷ nodes) s =
      let nodes = n ∷ nodes in
      let batch = node_batch level start 0 nodes in
      let num_leaves =
        if level == 0 then max s.num_leaves ((start + length nodes) % 2 ^ 64) else s.num_leaves in
      let batch = batch ++ (num_leaves_key, be_bytes 8 num_leaves) ∷ [] in
      settle s num_leaves (db.write s.db batch)

  unfoldable pub get_num_leaves : RocksDbStore D → ℕ
  get_num_leaves s = s.num_leaves

  abbrev pub rocksdb_store :
      (D → List Key → List (Reply (Option (List ℕ)))) → Store (RocksDbStore D)
  rocksdb_store multi_get = record {
    get = get multi_get;
    put = put;
    get_num_leaves = get_num_leaves;
  }
