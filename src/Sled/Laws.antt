-- ===== src/Sled/Laws.antt =====
-- A `SledStore` over a lawful database keeps the promise of the trait.
use rs_merkle_tree.Sled.Reads.{encode_key-key_of, IsValid, get_ok, get_mismatch}
use rs_merkle_tree.Store.{StoreLaws, IsRun, write_run}
use rs_merkle_tree.Run.Method.{Ends, succeeds, fails}
use rs_merkle_tree.Sled.{
  settle, get_num_leaves, sled_store, put, get, SledStore, read_each, encode_key, node_batch,
  read_node,
}
use rs_merkle_tree.KeyValue.Valid.{leaves_after, write_run_ends, Keeps, look}
use rs_merkle_tree.KeyValue.Batches.{put_batch, run_batch}
use rs_merkle_tree.KeyValue.Keys.{be_bytes, num_leaves_key, key_of}
use rs_merkle_tree.KeyValue.{
  Refusal, Replies, granted, denied, Batch, Key, Reply, failed, done, Database, DatabaseLaws,
}
use rs_merkle_tree.Node.{Node}
use rs_merkle_tree.Run.{MerkleError, err}
use rs_merkle_tree.Base.{
  ◌++◌, sym, max, ◌==◌, if◌then◌else◌, ℕ, suc, ◌+◌, ◌%◌, ◌^◌, ◌<◌, ◌≡◌, refl, ap, ◌∙◌, List, [],
  ◌∷◌, arith, length,
}

node_batch-run_batch :
    (level start offset : ℕ) (nodes : List Node)
    → start + offset + length nodes < 2 ^ 64
    → node_batch level start offset nodes ≡ run_batch level (start + offset) nodes
unfolding node_batch
node_batch-run_batch level start offset [] h = refl
node_batch-run_batch level start offset (n ∷ nodes) h =
    let place : (start + offset) % 2 ^ 64 ≡ start + offset = omega arith in
    let next : start + suc offset ≡ suc (start + offset) = omega arith in
    rw (place, encode_key-key_of level (start + offset))
      (ap (◌∷◌ (key_of level (start + offset), n.bytes)) (
        node_batch-run_batch level start (suc offset) nodes (omega arith)
        ∙ ap (λ k. run_batch level k nodes) next))

module _ {D : Type 0} {db : Database D} (laws : DatabaseLaws db) where
  -- The outcome of a `put` of a valid store, when the run goes through and when it does not.
  abbrev pub Stored : SledStore D → ℕ → ℕ → List Node → SledStore D → Unit {0} → Type 0
  Stored s level start nodes s' _ =
      IsValid laws s'
      × ((l i : ℕ) → look laws s'.db l i ≡ write_run (look laws s.db) level start nodes l i)
      × (get_num_leaves db s' ≡ (
          if level == 0
          then max (get_num_leaves db s) (start + length nodes)
          else get_num_leaves db s))

  abbrev pub Unchanged : SledStore D → SledStore D → MerkleError → Type 0
  Unchanged s s' _ =
      IsValid laws s'
      × ((l i : ℕ) → look laws s'.db l i ≡ look laws s.db l i)
      × (get_num_leaves db s' ≡ get_num_leaves db s)
      × Refusal laws

  settle-Ends :
      (s : SledStore D) (level start : ℕ) (nodes : List Node) (w : D × Reply (Unit {0}))
      → Replies
          (λ d'.
            Keeps laws d' (leaves_after laws s.num_leaves level start nodes)
            × ((l i : ℕ) → look laws d' l i ≡ write_run (look laws s.db) level start nodes l i))
          (λ d' _.
            Keeps laws d' s.num_leaves
            × ((l i : ℕ) → look laws d' l i ≡ look laws s.db l i)
            × Refusal laws)
          w
      → Ends
          (Stored s level start nodes)
          (Unchanged s)
          (settle db s (leaves_after laws s.num_leaves level start nodes) w)
  unfolding get_num_leaves
  settle-Ends s level start nodes (d, done _) (granted (keeps, read)) = succeeds (keeps, read, refl)
  settle-Ends s level start nodes (d, failed code) (denied (keeps, read, refusal)) =
      fails (keeps, read, refl, refusal)

  -- Over a lawful database, a valid store takes each run that the tree may write, or the database
  -- refuses it. It is valid again; where it takes the run, the run is read at its place, every
  -- other position reads as before, and the number of leaves grows to the end of a run of level 0;
  -- where the database refuses, every position reads as before and the number of leaves is
  -- unchanged.
  pub sled_put-Ends :
      (s : SledStore D) (level start : ℕ) (nodes : List Node)
      → IsValid laws s
      → IsRun (look laws s.db) level start nodes
      → Ends (Stored s level start nodes) (Unchanged s) (put db level start nodes s)
  unfolding put
  sled_put-Ends s level start [] v run = absurd (omega (arith, run.nonempty))
  sled_put-Ends s level start (n ∷ nodes) v run =
      let exact : (start + length (n ∷ nodes)) % 2 ^ 64 ≡ start + length (n ∷ nodes) =
        omega (arith, run.end_fits) in
      let origin : start + 0 ≡ start = omega arith in
      let batch = node_batch-run_batch level start 0 (n ∷ nodes) (omega (arith, run.end_fits)) in
      rw (exact, batch, origin)
        (settle-Ends s level start (n ∷ nodes)
          (db.write s.db (
            put_batch level start (n ∷ nodes)
              (be_bytes 8 (leaves_after laws s.num_leaves level start (n ∷ nodes)))))
          (write_run_ends laws s.db s.num_leaves level start (n ∷ nodes) v run))

  abbrev pub sled_laws : StoreLaws (sled_store db)
  sled_laws = record {
    IsValid = IsValid laws;
    look = λ s. look laws s.db;
    capacity = 2 ^ 64;
    get_ok = λ s levels indices v words _ same. get_ok laws s levels indices v words same;
    get_mismatch = get_mismatch laws;
    Refuses = Refusal laws;
    put_ends = λ s level start nodes v run _. sled_put-Ends s level start nodes v run;
  }

  settle-err :
      (s s' : SledStore D) (n : ℕ) (w : D × Reply (Unit {0})) (e : MerkleError)
      → settle db s n w ≡ (s', err e)
      → (code : ℕ) × (w ≡ (w.0, failed code)) × (s' ≡ record s { db = w.0 })
  settle-err s s' n (d, done _) e h = absurd (cc)
  settle-err s s' n (d, failed code) e h = (code, refl, sym (ap (λ r. r.0) h))

  read_each-ext :
      (d d' : D) (levels indices : List ℕ)
      → ((key : Key) → db.get d' key ≡ db.get d key)
      → read_each db d' levels indices ≡ read_each db d levels indices
  unfolding read_each read_node
  read_each-ext d d' [] indices h = refl
  read_each-ext d d' (l ∷ levels) [] h = refl
  read_each-ext d d' (l ∷ levels) (i ∷ indices) h =
      rw (h (encode_key l i), read_each-ext d d' levels indices h)

  settle_atomic :
      (s s' : SledStore D) (n : ℕ) (batch : Batch) (e : MerkleError)
      → settle db s n (db.write s.db batch) ≡ (s', err e)
      → (s'.num_leaves ≡ s.num_leaves)
        × ((levels indices : List ℕ) → get db s' levels indices ≡ get db s levels indices)
  unfolding get
  settle_atomic s s' n batch e h =
      let (code, failure, left) = settle-err s s' n (db.write s.db batch) e h in
      let kept = laws.write_failed s.db (db.write s.db batch).0 batch code failure in
      rw left (
        refl,
        λ levels indices. rw (read_each-ext s.db (db.write s.db batch).0 levels indices kept),
      )

  -- Over a lawful database, whatever state the store is in: a `put` that returns an error leaves
  -- the number of leaves and every answer of `get` as they were, since the batch is written whole
  -- or not at all.
  pub sled_put_atomic :
      (s s' : SledStore D) (level start : ℕ) (nodes : List Node) (e : MerkleError)
      → put db level start nodes s ≡ (s', err e)
      → (get_num_leaves db s' ≡ get_num_leaves db s)
        × ((levels indices : List ℕ) → get db s' levels indices ≡ get db s levels indices)
  unfolding put get_num_leaves
  sled_put_atomic s s' level start [] e h = absurd (cc)
  sled_put_atomic s s' level start (n ∷ nodes) e h =
      settle_atomic s s'
        (if level == 0
          then max s.num_leaves ((start + length (n ∷ nodes)) % 2 ^ 64)
          else s.num_leaves)
        (node_batch level start 0 (n ∷ nodes)
          ++ (
            num_leaves_key,
            be_bytes 8 (
                if level == 0
                then max s.num_leaves ((start + length (n ∷ nodes)) % 2 ^ 64)
                else s.num_leaves),
          )
            ∷ [])
        e h
