-- ===== src/KeyValue.antt =====
-- What the stores of src/stores/sled_store.rs and src/stores/rocksdb_store.rs have in common: the
-- database that they call, which is a parameter, and the keys that they use.
pub mod Keys
pub mod Batches
pub mod Valid
use rs_merkle_tree.KeyValue.Keys.{from_be_bytes}
use rs_merkle_tree.Run.{database, store_error, Run, ok, err, panic}
use rs_merkle_tree.Base.{
  refl, ℕ, ◌≡◌, Option, none, some, List, [], ◌∷◌, ◌==◌, if◌then◌else◌, length, list_eq,
}

abbrev pub Key : Type 0
Key = List ℕ

-- A batch, in the order of its insertions.
abbrev pub Batch : Type 0
Batch = List (Key × List ℕ)

-- What the database answers: a value, or an error.
pub data Reply (A : Type 0) : Type 0 where
  done : A → Reply A
  failed : ℕ → Reply A

-- `db.get(key)`, and `db.apply_batch(batch)` or `db.write(batch)`
pub record Database (D : Type 0) : Type 0 where
  pub get : D → Key → Reply (Option (List ℕ))
  pub write : D → Batch → D × Reply (Unit {0})

-- What a key reads after a batch: the last insertion counts.
abbrev pub batched : Batch → (Key → Option (List ℕ)) → Key → Option (List ℕ)
batched [] entries key = entries key
batched ((k, v) ∷ batch) entries key =
    batched batch (λ j. if list_eq j k then some v else entries j) key

-- How a call that changes the database ends: it is done, and `P` holds, or it fails, and `Q` does.
pub data Replies {D A : Type 0} (P : D → Type 0) (Q : D → ℕ → Type 0) : D × Reply A → Type 0 where
  granted : {d : D} {a : A} → P d → Replies P Q (d, done a)
  denied : {d : D} {code : ℕ} → Q d code → Replies P Q (d, failed code)

pub Replies-map :
    {D A : Type 0} {P P' : D → Type 0} {Q Q' : D → ℕ → Type 0} {r : D × Reply A}
    → Replies P Q r
    → ((d : D) → P d → P' d)
    → ((d : D) (code : ℕ) → r ≡ (d, failed code) → Q d code → Q' d code)
    → Replies P' Q' r
Replies-map (granted p) k j = granted (k _ p)
Replies-map (denied q) k j = denied (j _ _ refl q)

-- What the stores rely on: while the database is sound it answers, and a batch is written whole or
-- fails; in every state a batch that fails leaves every entry as it was.
pub record DatabaseLaws {D : Type 0} (db : Database D) : Type 1 where
  pub IsSound : D → Type 0
  pub entries : D → Key → Option (List ℕ)
  pub get_ok : (d : D) (key : Key) → IsSound d → db.get d key ≡ done (entries d key)
  pub write_ends :
      (d : D) (batch : Batch)
      → IsSound d
      → Replies
          (λ d'. IsSound d' × ((key : Key) → entries d' key ≡ batched batch (entries d) key))
          (λ d' _. IsSound d' × ((key : Key) → entries d' key ≡ entries d key))
          (db.write d batch)
  pub write_failed :
      (d d' : D) (batch : Batch) (code : ℕ)
      → db.write d batch ≡ (d', failed code)
      → (key : Key) → db.get d' key ≡ db.get d key

-- A batch that a sound database does not take.
pub record Refusal {D : Type 0} {db : Database D} (laws : DatabaseLaws db) : Type 0 where
  pub d : D
  pub d' : D
  pub batch : Batch
  pub code : ℕ
  pub sound : laws.IsSound d
  pub refused : db.write d batch ≡ (d', failed code)

-- `map_err(db_error)`
abbrev pub reply_ok : {A : Type 0} → Reply A → Run A
reply_ok (done a) = ok a
reply_ok (failed code) = err (store_error (database code))

-- `.expect(…)`
abbrev pub reply_expect : {A : Type 0} → Reply A → Run A
reply_expect (done a) = ok a
reply_expect (failed code) = panic

-- `.try_into().expect(…)` to eight bytes, and `u64::from_be_bytes`
abbrev pub read_count : Option (List ℕ) → Run ℕ
read_count none = ok 0
read_count (some bytes) = if length bytes == 8 then ok (from_be_bytes 0 bytes) else panic
