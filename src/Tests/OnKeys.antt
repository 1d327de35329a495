-- ===== src/Tests/OnKeys.antt =====
-- The theorems on `SledStore` and `RocksDbStore`, over a database that is a function, and that can
-- fail to write.
use rs_merkle_tree.Node.{Node}
use rs_merkle_tree.Base.{ℕ, ◌≡◌, refl, sym, ap, Bool, true, false, Option, none, List, map, arith}
use rs_merkle_tree.KeyValue.{
  Replies, granted, Batch, Database, DatabaseLaws, Key, Reply, batched, done, failed,
}
use rs_merkle_tree.KeyValue.Valid.{look}
use rs_merkle_tree.Sled.{SledStore, put, get, get_num_leaves}
use rs_merkle_tree.Sled.Reads.{IsValid}
use rs_merkle_tree.RocksDb
use rs_merkle_tree.RocksDb.{rocksdb_store}
use rs_merkle_tree.RocksDb.Laws.{rocksdb-sled}

-- Whether the database can write, and its entries.
abbrev pub Entries : Type 0
Entries = Bool × (Key → Option (List ℕ))

abbrev pub write : Entries → Batch → Entries × Reply (Unit {0})
write (true, entries) batch = ((true, batched batch entries), done tt)
write (false, entries) batch = ((false, entries), failed 5)

abbrev pub db : Database Entries
db = record { get = λ d key. done (d.1 key); write = write }

pub write_failed :
    (d d' : Entries) (batch : Batch) (code : ℕ)
    → write d batch ≡ (d', failed code)
    → (key : Key) → db.get d' key ≡ db.get d key
write_failed (true, entries) d' batch code e key = absurd (cc)
write_failed (false, entries) d' batch code e key = ap (λ r. done (r.0.1 key)) (sym e)

pub write_ends :
    (d : Entries) (batch : Batch)
    → d.0 ≡ true
    → Replies
        (λ d'. (d'.0 ≡ true) × ((key : Key) → d'.1 key ≡ batched batch d.1 key))
        (λ d' _. (d'.0 ≡ true) × ((key : Key) → d'.1 key ≡ d.1 key))
        (write d batch)
write_ends (true, entries) batch sound = granted (refl, λ key. refl)
write_ends (false, entries) batch sound = absurd (cc)

abbrev pub laws : DatabaseLaws db
laws = record {
  IsSound = λ d. d.0 ≡ true;
  entries = λ d. d.1;
  get_ok = λ d key sound. refl;
  write_ends = write_ends;
  write_failed = write_failed;
}

abbrev none_stored : SledStore Entries
none_stored = record { db = (true, λ _. none); num_leaves = 0 }

none_stored-look : (l i : ℕ) → look laws none_stored.db l i ≡ none
none_stored-look l i = ground arith

none_stored-IsValid : IsValid laws none_stored
none_stored-IsValid = record {
  sound = refl;
  whole = λ l i n found. absurd (cc (none_stored-look l i, found));
  word = omega arith;
  saved = refl;
}

abbrev pub multi_get : Entries → List Key → List (Reply (Option (List ℕ)))
multi_get d ks = map (db.get d) ks

rocksdb-sled_example :
    ((levels indices : List ℕ)
      → RocksDb.get db multi_get none_stored levels indices ≡ get db none_stored levels indices)
    × ((level start : ℕ) (nodes : List Node)
        → RocksDb.put db level start nodes none_stored ≡ put db level start nodes none_stored)
    × (RocksDb.get_num_leaves db none_stored ≡ get_num_leaves db none_stored)
rocksdb-sled_example = rocksdb-sled db multi_get (λ d ks. refl) none_stored
