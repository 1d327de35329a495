-- ===== src/Files.antt =====
-- src/stores/file_store.rs: one flat file for each level, in one directory.
pub mod System
pub mod Name
pub mod Bytes
pub mod Valid
pub mod Reads
pub mod Replaced
pub mod Written
pub mod Laws
pub mod Reopen
pub mod PastPrefix
pub mod Refused
use rs_merkle_tree.Base.{
  zero, suc, ◌+◌, ◌-◌, ◌*◌, ◌/◌, ◌%◌, ◌^◌, max, true, false, Option, none, some, [], ◌∷◌, ◌++◌, ltb,
  leb, ◌==◌, if◌then◌else◌, length, get_elem?, set, ℕ, List,
}
use rs_merkle_tree.Run.{
  ◌>>=◌, ◌>>◌, past_prefix, store_error, length_mismatch, ok, err, panic, index, unwrap_or, Run,
}
use rs_merkle_tree.Run.Method.{and_then, Method}
use rs_merkle_tree.Node.{len, as_bytes, Node}
use rs_merkle_tree.Store.{Store}
use rs_merkle_tree.Files.System.{
  attempt, create_dir, path_exists, open_existing, open_or_create, file_len, read_exact_at,
  write_all_at, Disk, FileName,
}
use rs_merkle_tree.Files.Name.{level_file_name}

-- The open files by their names, and the directory with everything in it.
pub record FileStore : Type 0 where
  pub disk : Disk
  pub files : List FileName
  pub counts : List ℕ

-- `.expect(…)`
abbrev expect {ℓ} : {A : Type ℓ} → Run A → Run A
expect (ok a) = ok a
expect _ = panic

-- The loop of `new` that probes level after level; `none` when `fuel` does not reach the first
-- level without a file.
probe : ℕ → Disk → List FileName → List ℕ → Option (Run FileStore)
probe zero disk files counts = none
probe (suc fuel) disk files counts =
    let name = level_file_name (length files) in
    elim (path_exists disk name) [
      | false ↦ some (ok (record { disk = disk; files = files; counts = counts }))
      | true ↦ elim (expect (open_existing disk name) >> expect (file_len disk name)) [
        | ok bytes ↦ probe fuel disk (files ++ name ∷ []) (counts ++ (bytes / len) ∷ [])
        | err e ↦ some (err e)
        | panic ↦ some panic
      ]
    ]

-- `FileStore::new`, on a directory with what an earlier store left in it.
unfoldable pub new : ℕ → Disk → Option (Run FileStore)
unfolding probe
new fuel disk = elim (attempt {A = Unit {0}} disk create_dir (ok tt)) [
  | ok _ ↦ probe fuel disk [] []
  | _ ↦ some panic
]

-- A call on the directory of the store.
abbrev on_disk : {A : Type 0} → FileStore → Disk × Run A → FileStore × Run A
on_disk s (disk, result) = (record s { disk = disk }, result)

-- One round of `ensure_level`: the next level's file is opened, or made.
open_level : Method FileStore (Unit {0})
open_level s =
    let name = level_file_name (length s.files) in
    and_then (on_disk s (open_or_create name s.disk)) λ _ s.
      and_then (s, file_len s.disk name)
        λ bytes s. (
          record s { files = s.files ++ name ∷ []; counts = s.counts ++ (bytes / len) ∷ [] },
          ok tt,
        )

open_levels : ℕ → Method FileStore (Unit {0})
unfolding open_level
open_levels zero s = (s, ok tt)
open_levels (suc rounds) s = and_then (open_level s) (λ _. open_levels rounds)

-- `while self.files.len() <= level`: each round opens one file.
unfoldable pub ensure_level : ℕ → Method FileStore (Unit {0})
unfolding open_levels
ensure_level level s = open_levels (level + 1 - length s.files) s

-- The closure of `get`.
unfoldable pub read_node : FileStore → ℕ → ℕ → Run (Option Node)
read_node s level idx = elim (get_elem? s.counts level) [
  | none ↦ ok none
  | some count ↦ elim (leb count idx) [
    | true ↦ ok none
    | false ↦ do
      name ← index s.files level
      bytes ← read_exact_at s.disk name (idx * len % 2 ^ 64) len
      ok (some (record { bytes = bytes }))
  ]
]

-- `.iter().zip(indices).map(…).collect()`: the first error ends it.
unfoldable pub read_each : FileStore → List ℕ → List ℕ → Run (List (Option Node))
read_each s (level ∷ levels) (idx ∷ indices) = do
  node ← read_node s level idx
  nodes ← read_each s levels indices
  ok (node ∷ nodes)
read_each s _ _ = ok []

unfoldable pub get : FileStore → List ℕ → List ℕ → Run (List (Option Node))
unfolding read_each
get s levels indices =
    if length levels == length indices
    then read_each s levels indices
    else err (length_mismatch (length levels) (length indices))

-- What `put` does when the level's file is open.
unfoldable pub write_run_at : ℕ → ℕ → List Node → Method FileStore (Unit {0})
write_run_at level start nodes s =
    and_then (s, index s.counts level)
      λ count s.
        if ltb count start
        then (s, err (store_error (past_prefix level start count)))
        else (and_then (s, index s.files level)
            λ name s.
              and_then
                (on_disk s (write_all_at name (start * len % 2 ^ 64) (as_bytes nodes) s.disk))
                λ _ s. (
                  record s {
                    counts = set s.counts level (max count ((start + length nodes) % 2 ^ 64));
                  },
                  ok tt,
                ))

unfoldable pub put : ℕ → ℕ → List Node → Method FileStore (Unit {0})
unfolding ensure_level write_run_at
put level start [] s = (s, ok tt)
put level start (n ∷ nodes) s =
    and_then (ensure_level level s) (λ _. write_run_at level start (n ∷ nodes))

unfoldable pub get_num_leaves : FileStore → ℕ
get_num_leaves s = unwrap_or (get_elem? s.counts 0) 0

instance abbrev pub file_store : Store FileStore
file_store = record { get = get; put = put; get_num_leaves = get_num_leaves }
