-- ===== src/RocksDb/Laws.antt =====
-- A `RocksDbStore` and a `SledStore` on the same database do the same.
use rs_merkle_tree.KeyValue.Valid.{look}
use rs_merkle_tree.Sled.Reads.{IsValid}
use rs_merkle_tree.Store.{StoreLaws, IsRun, AreWords, look_each, write_run}
use rs_merkle_tree.Run.Method.{Ends}
use rs_merkle_tree.Run.{MerkleError, length_mismatch, err, ok, ◌>>=◌}
use rs_merkle_tree.RocksDb.{
  new, rocksdb_store, be_bytes, num_leaves_key, settle, encode_key, decode_node, decode, decode_all,
  keys, node_batch, get, put, get_num_leaves,
}
use rs_merkle_tree.Sled.{SledStore}
use rs_merkle_tree.KeyValue.{Refusal, DatabaseLaws, reply_ok, done, failed, Key, Database, Reply}
use rs_merkle_tree.Node.{Node}
use rs_merkle_tree.Sled
use rs_merkle_tree.Base.{
  sym, inl, inr, Bool-cases, max, ◌∙◌, ◌≢◌, ◌++◌, ◌==◌, if◌then◌else◌, length, none, some, ℕ, suc,
  ◌+◌, ◌%◌, ◌^◌, ◌≡◌, refl, ap, Option, List, [], ◌∷◌, map,
}

node_batch-sled :
    (level start offset : ℕ) (nodes : List Node)
    → node_batch level start offset nodes ≡ Sled.node_batch level start offset nodes
unfolding node_batch encode_key Sled.node_batch Sled.encode_key
node_batch-sled level start offset [] = refl
node_batch-sled level start offset (n ∷ nodes) =
    ap (◌∷◌ (encode_key level ((start + offset) % 2 ^ 64), n.bytes))
      (node_batch-sled level start (suc offset) nodes)

decode-reply :
    (reply : Reply (Option (List ℕ)))
    → decode reply ≡ (
        reply_ok reply >>= λ found. elim found [
          | none ↦ ok none
          | some bytes ↦ Sled.decode_node bytes >>= λ n. ok (some n)
        ])
unfolding decode decode_node Sled.decode_node
decode-reply (done none) = refl
decode-reply (done (some bytes)) = refl
decode-reply (failed code) = refl

settle-sled :
    {D : Type 0} (db : Database D) (s : SledStore D) (n : ℕ) (w : D × Reply (Unit {0}))
    → settle db s n w ≡ Sled.settle db s n w
settle-sled db s n (d, done _) = refl
settle-sled db s n (d, failed code) = refl

put-sled :
    {D : Type 0} (db : Database D) (s : SledStore D) (level start : ℕ) (nodes : List Node)
    → put db level start nodes s ≡ Sled.put db level start nodes s
unfolding put Sled.put
put-sled db s level start [] = refl
put-sled db s level start (n ∷ nodes) =
    let count =
      if level == 0
      then max s.num_leaves ((start + length (n ∷ nodes)) % 2 ^ 64)
      else s.num_leaves in
    let batch = Sled.node_batch level start 0 (n ∷ nodes) in
    rw (node_batch-sled level start 0 (n ∷ nodes))
      (settle-sled db s count (db.write s.db (batch ++ (num_leaves_key, be_bytes 8 count) ∷ [])))

module _ {D : Type 0} (db : Database D) (multi_get : D → List Key → List (Reply (Option (List ℕ))))
    (one_by_one : (d : D) (ks : List Key) → multi_get d ks ≡ map (db.get d) ks) where
  decode-sled : (d : D) (l i : ℕ) → decode (db.get d (encode_key l i)) ≡ Sled.read_node db d l i
  unfolding Sled.read_node encode_key Sled.encode_key
  decode-sled d l i = decode-reply (db.get d (encode_key l i))

  decode_all-sled :
      (d : D) (levels indices : List ℕ)
      → decode_all (map (db.get d) (keys levels indices)) ≡ Sled.read_each db d levels indices
  unfolding decode_all keys Sled.read_each
  decode_all-sled d [] indices = refl
  decode_all-sled d (l ∷ levels) [] = refl
  decode_all-sled d (l ∷ levels) (i ∷ indices) =
      rw (decode-sled d l i, decode_all-sled d levels indices)

  -- Where `multi_get` answers each key as `get` does: `RocksDbStore` answers each `get` as
  -- `SledStore` does on the same database, and each `put` leaves the same database and number of
  -- leaves, with the same result.
  pub rocksdb-sled :
      (s : SledStore D)
      → ((levels indices : List ℕ)
          → get db multi_get s levels indices ≡ Sled.get db s levels indices)
        × ((level start : ℕ) (nodes : List Node)
            → put db level start nodes s ≡ Sled.put db level start nodes s)
        × (get_num_leaves db s ≡ Sled.get_num_leaves db s)
  unfolding get Sled.get get_num_leaves Sled.get_num_leaves
  rocksdb-sled s = (
    (λ levels indices.
        rw (one_by_one s.db (keys levels indices), decode_all-sled s.db levels indices)),
    put-sled db s,
    refl,
  )

  module _ (laws : DatabaseLaws db) where
    pub get_ok :
        (s : SledStore D) (levels indices : List ℕ)
        → IsValid laws s
        → AreWords levels indices
        → length levels ≡ length indices
        → get db multi_get s levels indices ≡ ok (look_each (look laws s.db) levels indices)
    get_ok s levels indices v words same =
        (rocksdb-sled s).0 levels indices ∙ Sled.Reads.get_ok laws s levels indices v words same

    pub get_mismatch :
        (s : SledStore D) (levels indices : List ℕ)
        → length levels ≢ length indices
        → get db multi_get s levels indices ≡ err (length_mismatch (length levels) (length indices))
    get_mismatch s levels indices h =
        (rocksdb-sled s).0 levels indices ∙ Sled.Reads.get_mismatch laws s levels indices h

    pub rocksdb_put-Ends :
        (s : SledStore D) (level start : ℕ) (nodes : List Node)
        → IsValid laws s
        → IsRun (look laws s.db) level start nodes
        → Ends
            (λ s' _.
              IsValid laws s'
              × ((l i : ℕ) → look laws s'.db l i ≡ write_run (look laws s.db) level start nodes l i)
              × (get_num_leaves db s' ≡ (
                  if level == 0
                  then max (get_num_leaves db s) (start + length nodes)
                  else get_num_leaves db s)))
            (λ s' _.
              IsValid laws s'
              × ((l i : ℕ) → look laws s'.db l i ≡ look laws s.db l i)
              × (get_num_leaves db s' ≡ get_num_leaves db s)
              × Refusal laws)
            (put db level start nodes s)
    unfolding get_num_leaves Sled.get_num_leaves
    rocksdb_put-Ends s level start nodes v run =
        rw (put-sled db s level start nodes)
          (Sled.Laws.sled_put-Ends laws s level start nodes v run)

    -- A store over a lawful database keeps the promise of the trait.
    abbrev pub rocksdb_laws : StoreLaws (rocksdb_store db multi_get)
    rocksdb_laws = record {
      IsValid = IsValid laws;
      look = λ s. look laws s.db;
      capacity = 2 ^ 64;
      get_ok = λ s levels indices v words _ same. get_ok s levels indices v words same;
      get_mismatch = get_mismatch;
      Refuses = Refusal laws;
      put_ends = λ s level start nodes v run _. rocksdb_put-Ends s level start nodes v run;
    }

    -- Over a lawful database, whatever state the store is in, where `multi_get` answers each key as
    -- `get` does: a `put` that returns an error leaves the number of leaves and every answer of
    -- `get` as they were.
    pub rocksdb_put_atomic :
        (s s' : SledStore D) (level start : ℕ) (nodes : List Node) (e : MerkleError)
        → put db level start nodes s ≡ (s', err e)
        → (get_num_leaves db s' ≡ get_num_leaves db s)
          × ((levels indices : List ℕ)
              → get db multi_get s' levels indices ≡ get db multi_get s levels indices)
    unfolding get_num_leaves Sled.get_num_leaves
    rocksdb_put_atomic s s' level start nodes e failure =
        let (count, answers) =
          Sled.Laws.sled_put_atomic laws s s' level start nodes e
            (sym (put-sled db s level start nodes) ∙ failure) in
        (
          count,
          λ levels indices.
              (rocksdb-sled s').0 levels indices
              ∙ answers levels indices
              ∙ sym ((rocksdb-sled s).0 levels indices),
        )

    -- A valid store whose database is opened again, where the flush of an empty one succeeds, comes
    -- back as it was.
    pub rocksdb_new_ok :
        (flush : D → Reply (Unit {0})) (s : SledStore D)
        → ((d : D) → laws.IsSound d → flush d ≡ done tt)
        → IsValid laws s
        → new db flush s.db ≡ ok s
    unfolding new
    rocksdb_new_ok flush s flush_ok v =
        rw (laws.get_ok s.db num_leaves_key v.sound, v.saved, flush_ok s.db v.sound)
          (elim (Bool-cases (s.num_leaves == 0)) [
            | inl empty ↦ rw empty
            | inr some_leaves ↦ rw some_leaves
          ])
