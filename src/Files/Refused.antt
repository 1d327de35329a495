-- ===== src/Files/Refused.antt =====
-- A write that the system refuses half way.
use rs_merkle_tree.Files.Replaced.{replaced, replaced-IsValid}
use rs_merkle_tree.Files.Reopen.{new-reopen}
use rs_merkle_tree.Run.Method.{and_then}
use rs_merkle_tree.Run.{ok}
use rs_merkle_tree.Files.Written.{num_leaves-level_bytes, capacity}
use rs_merkle_tree.Files.{
  new, put, get_num_leaves, ensure_level, open_levels, FileStore, read_node, write_run_at,
}
use rs_merkle_tree.Files.Valid.{look, level_bytes-put_contents, name_test, IsValid, level_bytes}
use rs_merkle_tree.Files.Bytes.{
  node_in, length-write_over_bytes, chunk-outside, chunk, length-as_bytes,
}
use rs_merkle_tree.Files.Name.{level_file_name}
use rs_merkle_tree.Files.System.{read_exact_at, put_contents, write_at, write_over, io_err}
use rs_merkle_tree.Node.{Node, len, IsNode, as_bytes}
use rs_merkle_tree.Base.{
  min, ap, false, if◌then◌else◌, max, [], ◌∷◌, ◌-◌, refl, list_eq, list_eq_iff, inl, inr, true, ltb,
  leb, ◌==◌, ==_iff, Bool-cases, get_elem?-le, ℕ, ◌+◌, ◌*◌, ◌/◌, ◌%◌, ◌^◌, ◌≤◌, ◌<◌, ◌≡◌, ◌⊎◌, none,
  some, List, arith, le→ltb, length, take, All, length-take,
}

abbrev pub without_refusals : FileStore → FileStore
without_refusals s = record s { disk = record s.disk { refusal = λ _. none } }

put-nonempty :
    (level start : ℕ) (nodes : List Node) (s : FileStore)
    → 0 < length nodes
    → put level start nodes s
      ≡ and_then (ensure_level level s) (λ _. write_run_at level start nodes)
unfolding put
put-nonempty level start [] s some_node = absurd (omega arith)
put-nonempty level start (n ∷ nodes) s some_node = refl

module _ (s : FileStore) (v : IsValid (without_refusals s)) (level start code amount : ℕ)
    (nodes : List Node) (opened : level < length s.files) (are_nodes : All IsNode nodes)
    (inside : start ≤ length (level_bytes s.disk level) / len)
    (room : start + length nodes ≤ capacity)
    (refusal : s.disk.refusal (write_at (level_file_name level) (start * len))
      ≡ some (code, amount)) where
  abbrev bytes : List ℕ
  bytes = level_bytes s.disk level

  abbrev bytes' : List ℕ
  bytes' = write_over bytes (start * len) (take amount (as_bytes nodes))

  abbrev partly : FileStore
  partly = record s { disk = put_contents s.disk (level_file_name level) bytes' }

  write_run_at-refused : write_run_at level start nodes s ≡ (partly, io_err code)
  unfolding write_run_at
  write_run_at-refused =
      let offset : start * len % 2 ^ 64 ≡ start * len = omega arith in
      rw
        (
          v.counted level opened,
          le→ltb (length bytes / len) start inside,
          v.named level opened,
          offset,
        )
        (ground (arith, refusal, v.there level opened))

  short : length (take amount (as_bytes nodes)) ≤ length nodes * len
  short = omega (arith, length-take amount (as_bytes nodes), length-as_bytes nodes are_nodes)

  read_exact_at-partly :
      (l i : ℕ)
      → l < length s.files
      → i < length (level_bytes s.disk l) / len
      → (l ≡ level → i < start ⊎ (start + length nodes ≤ i))
      → read_exact_at partly.disk (level_file_name l) (i * len) len
        ≡ read_exact_at s.disk (level_file_name l) (i * len) len
  read_exact_at-partly l i lt stored out = elim (Bool-cases (l == level)) [
    | inl here ↦
        let same : l ≡ level = (==_iff l level).0 here in
        let over = take amount (as_bytes nodes) in
        let kept : chunk bytes' i ≡ chunk bytes i =
          chunk-outside bytes start (length nodes) over inside short i (out same) in
        let found : s.disk.contents (level_file_name level) ≡ some bytes = v.there level opened in
        let long = length-write_over_bytes bytes start (length nodes) over inside short in
        let stored' : i < length bytes / len = rw same at stored in
        let whole : leb (i * len + len) (length bytes) ≡ true = ground arith in
        let whole' : leb (i * len + len) (length bytes') ≡ true = ground (arith, long) in
        let itself : list_eq (level_file_name level) (level_file_name level) ≡ true =
          (list_eq_iff (level_file_name level) (level_file_name level)).1 refl in
        rw same (ground (arith, itself, found, whole, whole', kept))
    | inr other ↦ ground (arith, other, name_test l level)
  ]

  -- Outside of the run nothing reads differently.
  read_node-partly :
      (l i : ℕ)
      → (l ≡ level → i < start ⊎ (start + length nodes ≤ i))
      → read_node partly l i ≡ read_node s l i
  unfolding read_node
  read_node-partly l i out = elim (Bool-cases (ltb l (length s.files))) [
    | inr missing ↦ ground (arith, get_elem?-le s.counts l (ground (arith, v.same)))
    | inl known ↦
        let lt : l < length s.files = ground arith in
        let count = length (level_bytes s.disk l) / len in
        elim (Bool-cases (leb count i)) [
          | inl past ↦ ground (arith, v.counted l lt, past)
          | inr stored ↦
              let offset : i * len % 2 ^ 64 ≡ i * len = ground (arith, v.bounded l) in
              ground (
                arith,
                v.counted l lt,
                v.named l lt,
                stored,
                offset,
                read_exact_at-partly l i lt (ground arith) out,
              )
        ]
  ]

  no_new_levels : ensure_level level s ≡ (s, ok tt)
  unfolding ensure_level open_levels
  no_new_levels = let enough : level + 1 - length s.files ≡ 0 = omega arith in rw enough

  -- In a store that is valid but for the calls that the system refuses, where the level of a run is
  -- open and has room for it, and the system refuses the write of the run after any number of
  -- bytes: `put` fails with the system's error, the number of leaves is unchanged, and so is what
  -- is read at each position outside of the run.
  pub put-refused :
      (l i : ℕ)
      → 0 < length nodes
      → (l ≡ level → i < start ⊎ (start + length nodes ≤ i))
      → ((put level start nodes s).1 ≡ io_err code)
        × (get_num_leaves (put level start nodes s).0 ≡ get_num_leaves s)
        × (read_node (put level start nodes s).0 l i ≡ read_node s l i)
  unfolding get_num_leaves
  put-refused l i some_node out =
      rw (put-nonempty level start nodes s some_node, no_new_levels, write_run_at-refused)
        (refl, refl, read_node-partly l i out)

  size' : length bytes' ≡ max (length bytes) (start * len + length (take amount (as_bytes nodes)))
  size' =
      length-write_over_bytes bytes start (length nodes) (take amount (as_bytes nodes)) inside short

  bounded' : length bytes' < 2 ^ 63
  bounded' = omega (arith, size', short, v.bounded level)

  node_in-partly :
      (i : ℕ) → i < start ⊎ (start + length nodes ≤ i) → node_in bytes' i ≡ node_in bytes i
  node_in-partly i out =
      let kept : chunk bytes' i ≡ chunk bytes i =
        chunk-outside bytes start (length nodes) (take amount (as_bytes nodes)) inside short i
          out in
      rw kept (elim out [
        | inl below ↦ ground (arith, size', short)
        | inr above ↦ ground (arith, size', short)
      ])

  -- What a store that is opened on the directory then is.
  abbrev recovered : FileStore
  recovered = replaced (without_refusals s) v level bytes' opened bounded'

  look-recovered :
      (l i : ℕ)
      → (l ≡ level → i < start ⊎ (start + length nodes ≤ i))
      → look recovered l i ≡ look s l i
  look-recovered l i out =
      rw (level_bytes-put_contents s.disk level l bytes') (elim (Bool-cases (l == level)) [
        | inl here ↦
            let same : l ≡ level = (==_iff l level).0 here in
            rw (here, same) (node_in-partly i (out same))
        | inr other ↦ rw other
      ])

  num_leaves-bytes : get_num_leaves s ≡ length (level_bytes s.disk 0) / len
  unfolding get_num_leaves
  num_leaves-bytes = num_leaves-level_bytes (without_refusals s) v

  -- The leaves that are counted then.
  num_leaves-recovered : get_num_leaves recovered ≡ (
      if level == 0
      then max (get_num_leaves s) (start + min (amount / len) (length nodes))
      else get_num_leaves s)
  num_leaves-recovered =
      rw
        (
          num_leaves-level_bytes recovered
              (replaced-IsValid (without_refusals s) v level bytes' opened bounded'),
          num_leaves-bytes,
          level_bytes-put_contents s.disk level 0 bytes',
        )
        (elim (Bool-cases (level == 0)) [
          | inl ground_level ↦
              let same : level ≡ 0 = (==_iff level 0).0 ground_level in
              let count : length bytes' / len
                  ≡ max (length bytes / len) (start + min (amount / len) (length nodes)) =
                omega (
                  arith,
                  size',
                  length-take amount (as_bytes nodes),
                  length-as_bytes nodes are_nodes,
                ) in
              let bottom : length (level_bytes s.disk level) ≡ length (level_bytes s.disk 0) =
                ap (λ l. length (level_bytes s.disk l)) same in
              ground (arith, count, bottom)
          | inr above ↦ let other : (0 == level) ≡ false = ground arith in rw (above, other)
        ])

  -- After such a write, when the system refuses nothing any more: `new` on the directory, with fuel
  -- for one round more than there are levels, gives a valid store in which each position outside of
  -- the run reads as before the write. Its number of leaves is the one from before the write, but
  -- for a run of level 0: there the nodes that were written whole are counted.
  pub put-refused_reopened :
      (fuel l i : ℕ)
      → length s.files < fuel
      → 0 < length nodes
      → (l ≡ level → i < start ⊎ (start + length nodes ≤ i))
      → (s' : FileStore) × (new fuel (without_refusals (put level start nodes s).0).disk
          ≡ some (ok s'))
        × IsValid s'
        × (look s' l i ≡ look s l i)
        × (get_num_leaves s' ≡ (
            if level == 0
            then max (get_num_leaves s) (start + min (amount / len) (length nodes))
            else get_num_leaves s))
  put-refused_reopened fuel l i enough some_node out =
      let valid = replaced-IsValid (without_refusals s) v level bytes' opened bounded' in
      (
        recovered,
        rw (put-nonempty level start nodes s some_node, no_new_levels, write_run_at-refused)
            (new-reopen recovered valid fuel enough),
        valid,
        look-recovered l i out,
        num_leaves-recovered,
      )
