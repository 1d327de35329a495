-- ===== src/KeyValue/Valid.antt =====
-- What a database holds for a store, read by positions, and what one `put` makes of it.
use rs_merkle_tree.KeyValue.{
  Replies-map, Refusal, Replies, Batch, Key, batched, Database, DatabaseLaws, read_count,
}
use rs_merkle_tree.KeyValue.Batches.{batched-put_batch-count, batched-put_batch, put_batch, node_of}
use rs_merkle_tree.KeyValue.Keys.{be_bytes, from_be_bytes-be_bytes, key_of, num_leaves_key}
use rs_merkle_tree.Store.{write_run-whole, IsRun, write_run}
use rs_merkle_tree.Node.{Node, len}
use rs_merkle_tree.Run.{ok}
use rs_merkle_tree.Base.{
  sym, ap, ◌∙◌, inl, inr, false, leb, Bool-cases, ℕ, ◌+◌, ◌^◌, ◌<◌, max, ◌≡◌, ◌&&◌, Option, none,
  some, List, arith, ltb, ◌==◌, if◌then◌else◌, length,
}

module _ {D : Type 0} {db : Database D} (laws : DatabaseLaws db) where
  -- What a position reads. A level is a u32, an index a u64.
  abbrev pub look : D → ℕ → ℕ → Option Node
  look d l i =
      if ltb l (2 ^ 32) && ltb i (2 ^ 64) then node_of (laws.entries d (key_of l i)) else none

  -- The database works, each of its nodes is whole, and it has the number of leaves.
  pub record Keeps (d : D) (num_leaves : ℕ) : Type 0 where
    pub sound : laws.IsSound d
    pub whole : (l i : ℕ) (n : Node) → look d l i ≡ some n → length n.bytes ≡ len
    pub word : num_leaves < 2 ^ 64
    pub saved : read_count (laws.entries d num_leaves_key) ≡ ok num_leaves

  -- The number of leaves after a run has been put.
  abbrev pub leaves_after : ℕ → ℕ → ℕ → List Node → ℕ
  leaves_after num_leaves level start nodes =
      if level == 0 then max num_leaves (start + length nodes) else num_leaves

  read_count-be_bytes : (n : ℕ) → n < 2 ^ 64 → read_count (some (be_bytes 8 n)) ≡ ok n
  read_count-be_bytes n h = ap ok (from_be_bytes-be_bytes 8 n h)

  -- A database whose entries are those of `d` after the batch that puts a run.
  module _ (d d' : D) (num_leaves level start : ℕ) (nodes : List Node) (k : Keeps d num_leaves)
      (run : IsRun (look d) level start nodes) (room : start + length nodes < 2 ^ 64) where
    abbrev count : ℕ
    count = leaves_after num_leaves level start nodes

    abbrev batch : Batch
    batch = put_batch level start nodes (be_bytes 8 count)

    module _ (sound : laws.IsSound d')
        (entries : (key : Key) → laws.entries d' key ≡ batched batch (laws.entries d) key) where
      look-batch : (l i : ℕ) → look d' l i ≡ write_run (look d) level start nodes l i
      look-batch l i = elim (Bool-cases (ltb l (2 ^ 32) && ltb i (2 ^ 64))) [
        | inl words ↦
            rw (words, entries (key_of l i))
              (batched-put_batch level start nodes (be_bytes 8 count) (laws.entries d) l i
                run.level_fits room (ground arith) (ground arith))
        | inr wide ↦
            let outside : (l == level && (leb start i && ltb i (start + length nodes))) ≡ false =
              ground (arith, run.level_fits) in
            rw (wide, outside)
      ]

      Keeps-batch : Keeps d' count
      Keeps-batch = record {
        sound = sound;
        whole = λ l i n e.
            write_run-whole (look d) level start nodes run.are_nodes k.whole l i n
              (sym (look-batch l i) ∙ e);
        word = ground (arith, k.word);
        saved =
            ap read_count (
              entries num_leaves_key
              ∙ batched-put_batch-count level start nodes (be_bytes 8 count) (laws.entries d))
            ∙ read_count-be_bytes count (ground (arith, k.word));
      }

  -- A database with the same entries keeps the same.
  Keeps-same :
      (d d' : D) (num_leaves : ℕ)
      → Keeps d num_leaves
      → laws.IsSound d'
      → ((key : Key) → laws.entries d' key ≡ laws.entries d key)
      → Keeps d' num_leaves × ((l i : ℕ) → look d' l i ≡ look d l i)
  Keeps-same d d' num_leaves k sound same =
      let read : (l i : ℕ) → look d' l i ≡ look d l i = λ l i. rw (same (key_of l i)) in
      (
        record {
          sound = sound;
          whole = λ l i n e. k.whole l i n (sym (read l i) ∙ e);
          word = k.word;
          saved = ap read_count (same num_leaves_key) ∙ k.saved;
        },
        read,
      )

  -- A run that the tree may write, in one batch: it is written, and the database keeps it all, or
  -- the database refuses it, and keeps what it had.
  pub write_run_ends :
      (d : D) (num_leaves level start : ℕ) (nodes : List Node)
      → Keeps d num_leaves
      → IsRun (look d) level start nodes
      → Replies
          (λ d'.
            Keeps d' (leaves_after num_leaves level start nodes)
            × ((l i : ℕ) → look d' l i ≡ write_run (look d) level start nodes l i))
          (λ d' _. Keeps d' num_leaves × ((l i : ℕ) → look d' l i ≡ look d l i) × Refusal laws)
          (db.write d
            (put_batch level start nodes (be_bytes 8 (leaves_after num_leaves level start nodes))))
  write_run_ends d num_leaves level start nodes k run =
      let count = leaves_after num_leaves level start nodes in
      let batch = put_batch level start nodes (be_bytes 8 count) in
      Replies-map (laws.write_ends d batch k.sound)
        (λ d' (sound, entries). (
          Keeps-batch d d' num_leaves level start nodes k run run.end_fits sound entries,
          look-batch d d' num_leaves level start nodes k run run.end_fits sound entries,
        ))
        (λ d' code refused (sound, same).
          let (kept, read) = Keeps-same d d' num_leaves k sound same in
          (
            kept,
            read,
            record {
              d = d;
              d' = d';
              batch = batch;
              code = code;
              sound = k.sound;
              refused = refused;
            },
          ))
