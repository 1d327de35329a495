-- ===== src/Tests/Interrupted.antt =====
-- A batch whose second write the database of a `SledStore` refuses, in a tree of depth 2: the
-- leaves are counted, their parent is missing, and the next batch takes a zero for it.
use rs_merkle_tree.Tree.Interrupted.{Failed, add_leaves-Failed}
use rs_merkle_tree.Tree.Insert.Correct.{add_leaves-Ends}
use rs_merkle_tree.Tree.Insert.Ends.{Interrupted}
use rs_merkle_tree.Tree.Spec.Facts.{stored-nil}
use rs_merkle_tree.Tree.Spec.{Represents}
use rs_merkle_tree.Sled.Laws.{sled_laws, sled_put-Ends, Stored, Unchanged}
use rs_merkle_tree.Sled.Reads.{IsValid}
use rs_merkle_tree.KeyValue.Valid.{look}
use rs_merkle_tree.Run.Method.{Ends}
use rs_merkle_tree.Run.{database, store_error, ok, err}
use rs_merkle_tree.Base.{
  sym, ap, ◌∙◌, inl, inr, arith, Bool-cases, ℕ, ◌-◌, ◌≡◌, refl, Option, none, List, [], ◌∷◌, ◌==◌,
  if◌then◌else◌,
}
use rs_merkle_tree.Tests.{hasher, hasher-IsHasher, node, pair, pair-IsRun, pair-nodes}
use rs_merkle_tree.KeyValue.{
  DatabaseLaws, Replies, granted, denied, Batch, Database, Key, Reply, batched, done, failed,
}
use rs_merkle_tree.Sled
use rs_merkle_tree.Sled.{SledStore, sled_store}
use rs_merkle_tree.Tree.{MerkleTree, zeros_index}
use rs_merkle_tree.Tree.Insert.{add_leaves}
use rs_merkle_tree.Tree.Fetch.{fetch_list, fill_partners}
use rs_merkle_tree.Tree.Level.{hash_level, head_len, as_chunks, write_head, write_tail, write_body}
use rs_merkle_tree.Hasher.{default_hash_pairs}
use rs_merkle_tree.Tree.Query.{root, num_leaves}
use rs_merkle_tree.Tree.Create.{made-Represents, made}
use rs_merkle_tree.Tree.Spec.Reference.{reference_root}

-- How many writes the database takes before it refuses one, and its entries.
abbrev pub Entries : Type 0
Entries = ℕ × (Key → Option (List ℕ))

abbrev pub write : Entries → Batch → Entries × Reply (Unit {0})
write (left, entries) batch =
    if left == 1 then ((0, entries), failed 5) else ((left - 1, batched batch entries), done tt)

abbrev pub db : Database Entries
db = record { get = λ d key. done (d.1 key); write = write }

pub write_ends :
    (d : Entries) (batch : Batch)
    → Replies
        (λ d'. Unit {0} × ((key : Key) → d'.1 key ≡ batched batch d.1 key))
        (λ d' _. Unit {0} × ((key : Key) → d'.1 key ≡ d.1 key))
        (write d batch)
write_ends d batch = elim (Bool-cases (d.0 == 1)) [
  | inl last ↦ rw last (denied (tt, λ key. refl))
  | inr more ↦ rw more (granted (tt, λ key. refl))
]

pub write_failed :
    (d d' : Entries) (batch : Batch) (code : ℕ)
    → write d batch ≡ (d', failed code)
    → (key : Key) → db.get d' key ≡ db.get d key
write_failed d d' batch code e key = elim (Bool-cases (d.0 == 1)) [
  | inl last ↦ ap (λ (r : Entries × Reply (Unit {0})). done (r.0.1 key)) (sym (rw last at e))
  | inr more ↦ absurd (cc (rw more at e))
]

abbrev pub laws : DatabaseLaws db
laws = record {
  IsSound = λ d. Unit {0};
  entries = λ d. d.1;
  get_ok = λ d key sound. refl;
  write_ends = λ d batch sound. write_ends d batch;
  write_failed = write_failed;
}

-- A store whose next write is refused.
abbrev last_write : SledStore Entries
last_write = record { db = (1, λ _. none); num_leaves = 0 }

pub none_stored-look : (left l i : ℕ) → look laws (left, λ _. none) l i ≡ none
none_stored-look left l i = ground arith

none_stored-IsValid : (left : ℕ) → IsValid laws (record { db = (left, λ _. none); num_leaves = 0 })
none_stored-IsValid left = record {
  sound = tt;
  whole = λ l i n found. absurd (cc (none_stored-look left l i, found));
  word = omega arith;
  saved = refl;
}

sled_put-Ends_example :
    Ends
      (Stored laws last_write 0 0 pair)
      (Unchanged laws last_write)
      (Sled.put db 0 0 pair last_write)
sled_put-Ends_example =
    sled_put-Ends laws last_write 0 0 pair (none_stored-IsValid 1)
      (pair-IsRun (look laws last_write.db))

abbrev pub clear : Entries → Entries × Reply (Unit {0})
clear d = ((d.0, λ _. none), done tt)

abbrev pub start : MerkleTree (SledStore Entries)
start = made 2 hasher (record { db = (2, λ _. none); num_leaves = 0 })

pub start-Represents : Represents (sled_laws laws) 2 start []
unfolding Sled.get_num_leaves
start-Represents =
    made-Represents ⦃st = sled_store db⦄ (sled_laws laws) 2 (omega arith) hasher hasher-IsHasher
      start.store []
      (record {
        valid = none_stored-IsValid 2;
        holds = λ l i _. none_stored-look 2 l i ∙ sym (stored-nil hasher.hash l i);
        counted = refl;
        fits = omega arith;
        roomy = omega arith;
        are_nodes = tt;
      })

add_leaves-Ends_example :
    Ends
      (λ t' _. Represents (sled_laws laws) 2 t' pair × (t'.hasher ≡ hasher))
      (λ t' _.
        (level : ℕ) × Interrupted {st = sled_store db} (sled_laws laws) 2 [] pair t' level
        × (t'.hasher ≡ hasher))
      (add_leaves ⦃st = sled_store db⦄ 2 pair start)
add_leaves-Ends_example =
    add_leaves-Ends ⦃st = sled_store db⦄ (sled_laws laws) 2 (omega arith) start [] start-Represents
      pair (omega arith) pair-nodes

abbrev interrupted : MerkleTree (SledStore Entries)
interrupted = (add_leaves ⦃st = sled_store db⦄ 2 pair start).0

abbrev resumed : MerkleTree (SledStore Entries)
resumed = (add_leaves ⦃st = sled_store db⦄ 2 (node 3 ∷ []) interrupted).0

interrupted_error :
    (add_leaves ⦃st = sled_store db⦄ 2 pair start).1 ≡ err (store_error (database 5))
unfolding add_leaves Sled.get_num_leaves Sled.get fetch_list fill_partners Sled.put hash_level
    head_len as_chunks write_head write_tail write_body default_hash_pairs
interrupted_error = refl

add_leaves-Failed_example :
    Failed ⦃st = sled_store db⦄
      (sled_laws laws)
      2
      (omega arith)
      start
      []
      start-Represents
      pair
      interrupted
add_leaves-Failed_example =
    add_leaves-Failed ⦃st = sled_store db⦄ (sled_laws laws) 2 (omega arith) start []
      start-Represents pair interrupted (store_error (database 5)) pair-nodes (omega arith)
      (ap (λ r. (interrupted, r)) interrupted_error)

interrupted_leaves : num_leaves ⦃st = sled_store db⦄ interrupted ≡ 2
unfolding num_leaves add_leaves Sled.get_num_leaves Sled.get fetch_list fill_partners Sled.put
    hash_level head_len as_chunks write_head write_tail write_body default_hash_pairs
interrupted_leaves = refl

-- The next call succeeds, and the root is not that of the three leaves.
resumed_ok : (add_leaves ⦃st = sled_store db⦄ 2 (node 3 ∷ []) interrupted).1 ≡ ok tt
unfolding add_leaves Sled.get_num_leaves Sled.get fetch_list fill_partners Sled.put hash_level
    head_len as_chunks write_head write_tail write_body default_hash_pairs Sled.read_node
    Sled.node_batch zeros_index Sled.decode_node
resumed_ok = refl

resumed_root : root ⦃st = sled_store db⦄ 2 resumed ≡ ok (node 79)
unfolding root add_leaves Sled.get_num_leaves Sled.get fetch_list fill_partners Sled.put hash_level
    head_len as_chunks write_head write_tail write_body default_hash_pairs Sled.read_node
    Sled.node_batch zeros_index Sled.decode_node
resumed_root = refl

three_root : reference_root hasher.hash 2 (node 1 ∷ node 2 ∷ node 3 ∷ []) ≡ ok (node 128)
unfolding reference_root
three_root = refl
