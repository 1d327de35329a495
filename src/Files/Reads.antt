-- ===== src/Files/Reads.antt =====
-- What `get` of a valid `FileStore` answers.
use rs_merkle_tree.Files.{file_store, FileStore, read_node, read_each, get}
use rs_merkle_tree.Files.Valid.{IsValid, look, level_bytes}
use rs_merkle_tree.Files.Name.{level_file_name}
use rs_merkle_tree.Files.System.{read_at}
use rs_merkle_tree.Store.{look_each}
use rs_merkle_tree.Node.{len}
use rs_merkle_tree.Run.{length_mismatch, ok, err}
use rs_merkle_tree.Base.{
  ◌≢◌, ℕ, ◌+◌, ◌*◌, ◌/◌, ◌%◌, ◌^◌, ◌<◌, ◌≡◌, refl, ◌∙◌, inl, inr, true, List, [], ◌∷◌, arith, ltb,
  leb, ◌==◌, if◌then◌else◌, Bool-cases, length, get_elem?-le,
}

pub read_node_ok :
    (s : FileStore) (level idx : ℕ) → IsValid s → read_node s level idx ≡ ok (look s level idx)
unfolding read_node
read_node_ok s level idx v =
    let bytes = level_bytes s.disk level in
    elim (Bool-cases (ltb level (length s.files))) [
      | inr missing ↦
          let no_count = get_elem?-le s.counts level (ground (arith, v.same)) in
          let no_file = v.beyond level (ground arith) in ground (arith, no_count, no_file)
      | inl there ↦
          let opened : level < length s.files = ground arith in
          elim (Bool-cases (leb (length bytes / len) idx)) [
            | inl past ↦ ground (arith, v.counted level opened, past)
            | inr stored ↦
                let offset : idx * len % 2 ^ 64 ≡ idx * len = ground (arith, v.bounded level) in
                let whole : leb (idx * len + len) (length bytes) ≡ true = ground arith in
                let found : ltb idx (length bytes / len) ≡ true = ground arith in
                ground (
                  arith,
                  v.counted level opened,
                  stored,
                  v.named level opened,
                  offset,
                  found,
                  v.no_refusal (read_at (level_file_name level) (idx * len)),
                  v.there level opened,
                  whole,
                )
          ]
    ]

read_each_ok :
    (s : FileStore) (levels indices : List ℕ)
    → IsValid s
    → read_each s levels indices ≡ ok (look_each (look s) levels indices)
unfolding read_each
read_each_ok s [] indices v = refl
read_each_ok s (l ∷ levels) [] v = refl
read_each_ok s (l ∷ levels) (i ∷ indices) v =
    rw (read_node_ok s l i v, read_each_ok s levels indices v)

-- `get` of a valid store returns what each position reads where the two lists have the same
-- length, and an error with the two lengths otherwise.
pub file_get-look :
    (s : FileStore) (levels indices : List ℕ)
    → IsValid s
    → get s levels indices ≡ (
        if length levels == length indices
        then ok (look_each (look s) levels indices)
        else err (length_mismatch (length levels) (length indices)))
unfolding get
file_get-look s levels indices v = rw (read_each_ok s levels indices v)

pub get_ok :
    (s : FileStore) (levels indices : List ℕ)
    → IsValid s
    → length levels ≡ length indices
    → get s levels indices ≡ ok (look_each (look s) levels indices)
get_ok s levels indices v same = file_get-look s levels indices v ∙ ground arith

pub get_mismatch :
    (s : FileStore) (levels indices : List ℕ)
    → length levels ≢ length indices
    → get s levels indices ≡ err (length_mismatch (length levels) (length indices))
unfolding get
get_mismatch s levels indices h = ground arith
