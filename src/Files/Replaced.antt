-- ===== src/Files/Replaced.antt =====
-- A valid `FileStore` in which the file of an opened level gets other bytes, and its count with
-- them.
use rs_merkle_tree.Base.{
  ℕ, ◌/◌, ◌^◌, ◌<◌, ◌≡◌, ◌∙◌, List, arith, ◌==◌, if◌then◌else◌, length, set, length-set,
  get_elem?-set,
}
use rs_merkle_tree.Files.{FileStore}
use rs_merkle_tree.Files.Valid.{IsValid, level_bytes, level_bytes-put_contents, name_test}
use rs_merkle_tree.Files.Name.{level_file_name}
use rs_merkle_tree.Files.System.{put_contents}
use rs_merkle_tree.Node.{len}

module _ (s : FileStore) (v : IsValid s) (level : ℕ) (bytes : List ℕ)
    (opened : level < length s.files) (bounded : length bytes < 2 ^ 63) where
  abbrev pub replaced : FileStore
  replaced = record {
    disk = put_contents s.disk (level_file_name level) bytes;
    files = s.files;
    counts = set s.counts level (length bytes / len);
  }

  replaced-level_bytes :
      (l : ℕ) → level_bytes replaced.disk l ≡ (if l == level then bytes else level_bytes s.disk l)
  replaced-level_bytes l = level_bytes-put_contents s.disk level l bytes

  pub replaced-IsValid : IsValid replaced
  replaced-IsValid = record {
    no_refusal = v.no_refusal;
    same = length-set s.counts level (length bytes / len) ∙ v.same;
    named = v.named;
    counted = λ l h.
        rw (replaced-level_bytes l) (
          ground (arith, get_elem?-set s.counts level l (length bytes / len), v.same, v.counted l));
    there = λ l h. rw (replaced-level_bytes l, name_test l level) (ground (arith, v.there l));
    beyond = λ l h. rw (name_test l level) (ground (arith, v.beyond l));
    bounded = λ l. rw (replaced-level_bytes l) (ground (arith, v.bounded l, bounded));
  }
