-- ===== src/KeyValue/Batches.antt =====
-- The batch that puts a run of nodes, and what it leaves under each key.
use native.Mathlib.Decide.{ℕ_discrete}
use rs_merkle_tree.KeyValue.{Key, Batch, batched}
use rs_merkle_tree.KeyValue.Keys.{
  key_of, key_of-injective, key_of-ne-num_leaves_key, num_leaves_key,
}
use rs_merkle_tree.Node.{Node}
use rs_merkle_tree.Run.{index}
use rs_merkle_tree.Base.{
  ℕ, suc, ◌+◌, ◌-◌, ◌^◌, ◌<◌, ◌≡◌, refl, ap, ap₂, ◌∙◌, inl, inr, true, false, ◌&&◌, Option, none,
  some, List, [], ◌∷◌, ◌++◌, arith, ltb, leb, ◌==◌, if◌then◌else◌, Bool-cases, length, get_elem?,
  list_eq, list_eq_iff,
}

-- The insertions of a run, one node after the other.
abbrev pub run_batch : ℕ → ℕ → List Node → Batch
run_batch level start [] = []
run_batch level start (n ∷ nodes) =
    (key_of level start, n.bytes) ∷ run_batch level (suc start) nodes

-- What a position reads, where its entry has the length of a node.
abbrev pub node_of : Option (List ℕ) → Option Node
node_of none = none
node_of (some bytes) = some (record { bytes = bytes })

key_test :
    (l i k j : ℕ)
    → l < 2 ^ 32
    → k < 2 ^ 32
    → i < 2 ^ 64
    → j < 2 ^ 64
    → list_eq (key_of l i) (key_of k j) ≡ (l == k && i == j)
key_test l i k j hl hk hi hj = elim (Bool-cases (l == k && i == j)) [
  | inl same ↦
      let level : l ≡ k = ground arith in
      let index : i ≡ j = ground arith in
      rw same ((list_eq_iff (key_of l i) (key_of k j)).1 (ap₂ key_of level index))
  | inr other ↦ rw other (elim (Bool-cases (list_eq (key_of l i) (key_of k j))) [
    | inl equal ↦
        let (level, index) =
          key_of-injective l i k j hl hk hi hj ((list_eq_iff (key_of l i) (key_of k j)).0 equal) in
        ground arith
    | inr different ↦ different
  ])
]

pub batched-append :
    (b c : Batch) (entries : Key → Option (List ℕ)) (key : Key)
    → batched (b ++ c) entries key ≡ batched c (batched b entries) key
batched-append [] c entries key = refl
batched-append ((k, v) ∷ b) c entries key =
    batched-append b c (λ j. if list_eq j k then some v else entries j) key

batched-run_batch :
    (level start : ℕ) (nodes : List Node) (entries : Key → Option (List ℕ)) (l i : ℕ)
    → level < 2 ^ 32
    → start + length nodes < 2 ^ 64
    → l < 2 ^ 32
    → i < 2 ^ 64
    → node_of (batched (run_batch level start nodes) entries (key_of l i)) ≡ (
        if l == level && (leb start i && ltb i (start + length nodes))
        then get_elem? nodes (i - start)
        else node_of (entries (key_of l i)))
batched-run_batch level start [] entries l i hk hj hl hi = ground arith
batched-run_batch level start (n ∷ nodes) entries l i hk hj hl hi =
    let rest =
      batched-run_batch level (suc start) nodes
        (λ j. if list_eq j (key_of level start) then some n.bytes else entries j) l i hk
        (omega arith) hl hi in
    let test = key_test l i level start hl hk hi (omega arith) in
    rest
    ∙ rw test (elim (ℕ_discrete i start) [
      | yes here ↦
          let first : i - start ≡ 0 = omega arith in
          let itself : (i == start) ≡ true = ground arith in rw (first, itself) (ground arith)
      | no other ↦ elim (Bool-cases (leb start i)) [
        | inl above ↦
            let next : i - start ≡ suc (i - suc start) = ground arith in rw next (ground arith)
        | inr below ↦ ground arith
      ]
    ])

-- After the batch that `put` writes: each position of the run reads its node, every other reads as
-- before, and the count is the new one.
abbrev pub put_batch : ℕ → ℕ → List Node → List ℕ → Batch
put_batch level start nodes count = run_batch level start nodes ++ (num_leaves_key, count) ∷ []

module _ (level start : ℕ) (nodes : List Node) (count : List ℕ)
    (entries : Key → Option (List ℕ)) where
  pub batched-put_batch :
      (l i : ℕ)
      → level < 2 ^ 32
      → start + length nodes < 2 ^ 64
      → l < 2 ^ 32
      → i < 2 ^ 64
      → node_of (batched (put_batch level start nodes count) entries (key_of l i)) ≡ (
          if l == level && (leb start i && ltb i (start + length nodes))
          then get_elem? nodes (i - start)
          else node_of (entries (key_of l i)))
  batched-put_batch l i hk hj hl hi =
      let other : list_eq (key_of l i) num_leaves_key ≡ false =
        ground (arith, list_eq_iff (key_of l i) num_leaves_key, key_of-ne-num_leaves_key l i) in
      ap node_of (
        batched-append (run_batch level start nodes) ((num_leaves_key, count) ∷ []) entries
          (key_of l i)
        ∙ rw other)
      ∙ batched-run_batch level start nodes entries l i hk hj hl hi

  pub batched-put_batch-count :
      batched (put_batch level start nodes count) entries num_leaves_key ≡ some count
  batched-put_batch-count =
      batched-append (run_batch level start nodes) ((num_leaves_key, count) ∷ []) entries
        num_leaves_key
