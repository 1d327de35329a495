-- ===== src/Files/Written.antt =====
-- A run written into the file of an opened level of a valid `FileStore`.
use rs_merkle_tree.Files.Replaced.{replaced-IsValid}
use rs_merkle_tree.Files.{file_store, FileStore, get_num_leaves, write_run_at}
use rs_merkle_tree.Files.Valid.{IsValid, look, level_bytes, level_bytes-put_contents}
use rs_merkle_tree.Files.Bytes.{node_in-write_over, length-write_over, length-as_bytes}
use rs_merkle_tree.Files.Name.{level_file_name}
use rs_merkle_tree.Files.System.{put_contents, write_at, write_over}
use rs_merkle_tree.Store.{write_run}
use rs_merkle_tree.Node.{Node, len, IsNode, as_bytes}
use rs_merkle_tree.Run.{ok}
use rs_merkle_tree.Base.{
  ap, false, ==_iff, ℕ, ◌+◌, ◌-◌, ◌*◌, ◌/◌, ◌%◌, ◌^◌, ◌≤◌, ◌<◌, max, ◌≡◌, inl, inr, true, List,
  arith, ltb, ◌==◌, if◌then◌else◌, lt→ltb, le→ltb, Bool-cases, length, set, All, get_elem?-le,
}

pub num_leaves-level_bytes :
    (s : FileStore) → IsValid s → get_num_leaves s ≡ length (level_bytes s.disk 0) / len
unfolding get_num_leaves
num_leaves-level_bytes s v =
    ground (arith, v.same, v.counted 0, v.beyond 0, get_elem?-le s.counts 0)

-- A level has room for this many nodes: a file has fewer than `2 ^ 63` bytes.
abbrev pub capacity : ℕ
capacity = 2 ^ 58 - 1

-- The write of a run into the file of an opened level.
module _ (s : FileStore) (v : IsValid s) (level start : ℕ) (nodes : List Node)
    (opened : level < length s.files) (are_nodes : All IsNode nodes)
    (inside : start ≤ length (level_bytes s.disk level) / len)
    (room : start + length nodes ≤ capacity) where
  abbrev bytes : List ℕ
  bytes = level_bytes s.disk level

  abbrev bytes' : List ℕ
  bytes' = write_over bytes (start * len) (as_bytes nodes)

  abbrev count' : ℕ
  count' = max (length bytes / len) ((start + length nodes) % 2 ^ 64)

  abbrev written : FileStore
  written = record {
    disk = put_contents s.disk (level_file_name level) bytes';
    files = s.files;
    counts = set s.counts level count';
  }

  pub write_run_at_ok : write_run_at level start nodes s ≡ (written, ok tt)
  unfolding write_run_at
  write_run_at_ok =
      let offset : start * len % 2 ^ 64 ≡ start * len = omega arith in
      let fits : ltb (start * len + length (as_bytes nodes)) (2 ^ 63) ≡ true =
        lt→ltb _ _ (omega (arith, length-as_bytes nodes are_nodes)) in
      rw
        (
          v.counted level opened,
          le→ltb (length bytes / len) start inside,
          v.named level opened,
          offset,
        )
        (ground (
          arith,
          v.no_refusal (write_at (level_file_name level) (start * len)),
          v.there level opened,
          fits,
        ))

  size' : length bytes' ≡ max (length bytes) ((start + length nodes) * len)
  size' = length-write_over bytes start nodes are_nodes inside

  written-level_bytes :
      (l : ℕ) → level_bytes written.disk l ≡ (if l == level then bytes' else level_bytes s.disk l)
  written-level_bytes l = level_bytes-put_contents s.disk level l bytes'

  count'-length : count' ≡ length bytes' / len
  count'-length = omega (arith, size')

  pub written-IsValid : IsValid written
  written-IsValid =
      rw count'-length
        (replaced-IsValid s v level bytes' opened (omega (arith, v.bounded level, size')))

  pub written-look : (l i : ℕ) → look written l i ≡ write_run (look s) level start nodes l i
  written-look l i = rw (written-level_bytes l) (elim (Bool-cases (l == level)) [
    | inl here ↦
        let same : l ≡ level = (==_iff l level).0 here in
        rw (here, same) (node_in-write_over bytes start nodes are_nodes inside i)
    | inr other ↦ rw other
  ])

  pub written-num_leaves :
      get_num_leaves written
      ≡ (if level == 0 then max (get_num_leaves s) (start + length nodes) else get_num_leaves s)
  written-num_leaves =
      rw
        (
          num_leaves-level_bytes written written-IsValid,
          num_leaves-level_bytes s v,
          written-level_bytes 0,
        )
        (elim (Bool-cases (level == 0)) [
          | inl ground_level ↦
              let same : level ≡ 0 = (==_iff level 0).0 ground_level in
              let count : length bytes' / len ≡ max (length bytes / len) (start + length nodes) =
                omega (arith, size') in
              let bottom : length (level_bytes s.disk level) ≡ length (level_bytes s.disk 0) =
                ap (λ l. length (level_bytes s.disk l)) same in
              ground (arith, count, bottom)
          | inr above ↦ let other : (0 == level) ≡ false = ground arith in rw (above, other)
        ])
