-- ===== src/Files/Valid.antt =====
-- The invariant of a `FileStore`: its counts are those of the level files, and the directory has
-- no level file that the store has not opened.
use rs_merkle_tree.Run.Method.{Returns, returns, Returns-map}
use rs_merkle_tree.Files.{open_levels, ensure_level, FileStore, open_level}
use rs_merkle_tree.Files.Bytes.{node_in}
use rs_merkle_tree.Files.Name.{level_file_name, level_file_name-injective}
use rs_merkle_tree.Files.System.{open_file, metadata, Disk, Call, put_contents}
use rs_merkle_tree.Node.{Node, len}
use rs_merkle_tree.Run.{ok, unwrap_or}
use rs_merkle_tree.Base.{
  zero, ◌+◌, ◌-◌, max, refl, true, ℕ, suc, ◌/◌, ◌^◌, ◌≤◌, ◌<◌, ◌≡◌, ◌∙◌, Option, none, some, List,
  [], ◌∷◌, ◌++◌, arith, ◌==◌, if◌then◌else◌, length, get_elem?, length-append, get_elem?-append,
  list_eq, list_eq_iff,
}

-- The bytes of a level's file: none where there is no file.
abbrev pub level_bytes : Disk → ℕ → List ℕ
level_bytes disk l = unwrap_or (disk.contents (level_file_name l)) []

-- What a position of the store reads.
abbrev pub look : FileStore → ℕ → ℕ → Option Node
look s l i = node_in (level_bytes s.disk l) i

-- `refusal`: the system refuses no call.
pub record IsValid (s : FileStore) : Type 0 where
  pub no_refusal : (c : Call) → s.disk.refusal c ≡ none
  pub same : length s.counts ≡ length s.files
  pub named : (l : ℕ) → l < length s.files → get_elem? s.files l ≡ some (level_file_name l)
  pub counted :
      (l : ℕ)
      → l < length s.files
      → get_elem? s.counts l ≡ some (length (level_bytes s.disk l) / len)
  pub there :
      (l : ℕ)
      → l < length s.files
      → s.disk.contents (level_file_name l) ≡ some (level_bytes s.disk l)
  pub beyond : (l : ℕ) → length s.files ≤ l → s.disk.contents (level_file_name l) ≡ none
  pub bounded : (l : ℕ) → length (level_bytes s.disk l) < 2 ^ 63

pub name_test : (l k : ℕ) → list_eq (level_file_name l) (level_file_name k) ≡ (l == k)
name_test l k =
    ground
      (arith, list_eq_iff (level_file_name l) (level_file_name k), level_file_name-injective l k)

pub level_bytes-put_contents :
    (disk : Disk) (k l : ℕ) (bytes : List ℕ)
    → level_bytes (put_contents disk (level_file_name k) bytes) l
      ≡ (if l == k then bytes else level_bytes disk l)
level_bytes-put_contents disk k l bytes = rw (name_test l k) (ground arith)

-- The files after one more level has been opened.
module _ (s : FileStore) (v : IsValid s) where
  abbrev pub opened : FileStore
  opened = record {
    disk = put_contents s.disk (level_file_name (length s.files)) [];
    files = s.files ++ level_file_name (length s.files) ∷ [];
    counts = s.counts ++ 0 ∷ [];
  }

  opened-same_bytes : (l : ℕ) → level_bytes opened.disk l ≡ level_bytes s.disk l
  opened-same_bytes l =
      level_bytes-put_contents s.disk (length s.files) l [] ∙ ground (arith, v.beyond l)

  opened-length : length opened.files ≡ suc (length s.files)
  opened-length = omega (arith, length-append s.files (level_file_name (length s.files) ∷ []))

  pub opened-IsValid : IsValid opened
  opened-IsValid = record {
    no_refusal = v.no_refusal;
    same = omega (
      arith,
      v.same,
      length-append s.files (level_file_name (length s.files) ∷ []),
      length-append s.counts (0 ∷ []),
    );
    named = λ l h. ground (
      arith,
      get_elem?-append s.files (level_file_name (length s.files) ∷ []) l,
      v.named l,
      opened-length,
    );
    counted = λ l h. rw (opened-same_bytes l) (
        ground (
          arith,
          get_elem?-append s.counts (0 ∷ []) l,
          v.same,
          v.counted l,
          v.beyond l,
          opened-length,
        ));
    there = λ l h.
        rw (opened-same_bytes l, name_test l (length s.files))
          (ground (arith, v.there l, v.beyond l, opened-length));
    beyond = λ l h. rw (name_test l (length s.files)) (ground (arith, v.beyond l, opened-length));
    bounded = λ l. rw opened-same_bytes (v.bounded l);
  }

  open_level_ok : open_level s ≡ (opened, ok tt)
  unfolding open_level
  open_level_ok =
      let name = level_file_name (length s.files) in
      let itself : list_eq name name ≡ true = (list_eq_iff name name).1 refl in
      ground (
        arith,
        v.no_refusal (open_file name),
        v.beyond (length s.files),
        v.no_refusal (metadata name),
        itself,
      )

-- `ensure_level` opens files until the level has one, and no position reads differently.
abbrev pub Ensured : FileStore → ℕ → FileStore → Type 0
Ensured s n s' =
    IsValid s' × (length s'.files ≡ n) × ((l : ℕ) → level_bytes s'.disk l ≡ level_bytes s.disk l)

open_levels_ok :
    (rounds : ℕ) (s : FileStore)
    → IsValid s
    → Returns (λ s' _. Ensured s (length s.files + rounds) s') (open_levels rounds s)
unfolding open_levels
open_levels_ok zero s v = returns (v, omega arith, λ l. refl)
open_levels_ok (suc rounds) s v = rw (open_level_ok s v) (
    Returns-map (open_levels_ok rounds (opened s v) (opened-IsValid s v)) λ s' _ (v', n, same).
      (v', n ∙ omega (arith, opened-length s v), λ l. same l ∙ opened-same_bytes s v l))

pub ensure_level_ok :
    (level : ℕ) (s : FileStore)
    → IsValid s
    → Returns (λ s' _. Ensured s (max (length s.files) (level + 1)) s') (ensure_level level s)
unfolding ensure_level
ensure_level_ok level s v =
    Returns-map (open_levels_ok (level + 1 - length s.files) s v)
      λ s' _ (v', n, same). (v', n ∙ omega arith, same)
