-- ===== src/Files/Bytes.antt =====
-- A level file as a run of nodes, and what a write of nodes over it does.
use rs_merkle_tree.Files.System.{write_over}
use rs_merkle_tree.Node.{Node, len, IsNode, as_bytes}
use rs_merkle_tree.Base.{
  All-get_elem?, ap, true, lt→ltb, get_elem?-lt, ℕ, zero, suc, ◌+◌, ◌-◌, ◌*◌, ◌/◌, ◌≤◌, ◌<◌, max,
  ◌≡◌, refl, sym, ◌∙◌, ◌⊎◌, inl, inr, false, ◌&&◌, Option, none, some, List, [], ◌∷◌, ◌++◌,
  append-nil, arith, ltb, leb, if◌then◌else◌, le→ltb, Bool-cases, length, get_elem?, take, drop,
  All, length-append, length-take, length-drop, get_elem?-le, get_elem?-append, get_elem?-take,
  get_elem?-drop, get_elem?-splice, get_elem?-ext,
}

-- The bytes of the node at index `i`, and the node, where the file holds it whole.
abbrev pub chunk : List ℕ → ℕ → List ℕ
chunk bytes i = take len (drop (i * len) bytes)

abbrev pub node_in : List ℕ → ℕ → Option Node
node_in bytes i =
    if ltb i (length bytes / len) then some (record { bytes = chunk bytes i }) else none

get_elem?-chunk :
    (bytes : List ℕ) (i k : ℕ)
    → get_elem? (chunk bytes i) k ≡ (if ltb k len then get_elem? bytes (i * len + k) else none)
get_elem?-chunk bytes i k =
    get_elem?-take len (drop (i * len) bytes) k ∙ ground (arith, get_elem?-drop (i * len) bytes k)

pub length-as_bytes :
    (nodes : List Node) → All IsNode nodes → length (as_bytes nodes) ≡ length nodes * len
unfolding as_bytes
length-as_bytes [] h = refl
length-as_bytes (n ∷ nodes) h =
    omega (arith, length-append n.bytes (as_bytes nodes), h.0.0, length-as_bytes nodes h.1)

get_elem?-as_bytes :
    (nodes : List Node) (j k : ℕ) (n : Node)
    → All IsNode nodes
    → get_elem? nodes j ≡ some n
    → k < len
    → get_elem? (as_bytes nodes) (j * len + k) ≡ get_elem? n.bytes k
unfolding as_bytes
get_elem?-as_bytes [] j k n h e lt = cc
get_elem?-as_bytes (m ∷ nodes) zero k n h e lt =
    let here : zero * len + k ≡ k = omega arith in
    rw here (ground (arith, get_elem?-append m.bytes (as_bytes nodes) k, h.0.0))
get_elem?-as_bytes (m ∷ nodes) (suc j) k n h e lt =
    let past : suc j * len + k - length m.bytes ≡ j * len + k = omega (arith, h.0.0) in
    let large : ltb (suc j * len + k) (length m.bytes) ≡ false =
      le→ltb _ _ (omega (arith, h.0.0)) in
    get_elem?-append m.bytes (as_bytes nodes) (suc j * len + k)
    ∙ rw (large, past) (get_elem?-as_bytes nodes j k n h.1 e lt)

-- A write of at most `m` nodes' bytes at the place of the node `start`.
module _ (bytes : List ℕ) (start m : ℕ) (over : List ℕ) (inside : start ≤ length bytes / len)
    (short : length over ≤ m * len) where
  abbrev changed : List ℕ
  changed = write_over bytes (start * len) over

  changed_lem :
      changed ≡ take (start * len) bytes ++ (over ++ drop (start * len + length over) bytes)
  changed_lem =
      let none_missing : start * len - length bytes ≡ 0 = omega arith in
      rw (none_missing, append-nil bytes)

  pub length-write_over_bytes : length changed ≡ max (length bytes) (start * len + length over)
  length-write_over_bytes = rw changed_lem (
      omega (
        arith,
        length-append (take (start * len) bytes) (over ++ drop (start * len + length over) bytes),
        length-append over (drop (start * len + length over) bytes),
        length-take (start * len) bytes,
        length-drop (start * len + length over) bytes,
      ))

  get_elem?-changed :
      (i : ℕ)
      → get_elem? changed i ≡ (
          if leb (start * len) i && ltb i (start * len + length over)
          then get_elem? over (i - start * len)
          else get_elem? bytes i)
  get_elem?-changed i = rw changed_lem (get_elem?-splice bytes (start * len) over i (omega arith))

  -- A node that was not written is read as before.
  pub chunk-outside : (i : ℕ) → i < start ⊎ (start + m ≤ i) → chunk changed i ≡ chunk bytes i
  chunk-outside i out = get_elem?-ext (chunk changed i) (chunk bytes i) λ k.
      get_elem?-chunk changed i k ∙ elim out [
        | inl below ↦ ground (arith, get_elem?-changed (i * len + k), get_elem?-chunk bytes i k)
        | inr above ↦ ground (arith, get_elem?-changed (i * len + k), get_elem?-chunk bytes i k)
      ]

module _ (bytes : List ℕ) (start : ℕ) (nodes : List Node) (are_nodes : All IsNode nodes)
    (inside : start ≤ length bytes / len) where
  abbrev written : List ℕ
  written = write_over bytes (start * len) (as_bytes nodes)

  size : length (as_bytes nodes) ≡ length nodes * len
  size = length-as_bytes nodes are_nodes

  exact : length (as_bytes nodes) ≤ length nodes * len
  exact = omega (arith, size)

  pub length-write_over : length written ≡ max (length bytes) ((start + length nodes) * len)
  length-write_over = omega (
    arith,
    size,
    length-write_over_bytes bytes start (length nodes) (as_bytes nodes) inside exact,
  )

  chunk-inside :
      (j : ℕ) (n : Node)
      → get_elem? nodes j ≡ some n
      → IsNode n
      → chunk written (start + j) ≡ n.bytes
  chunk-inside j n e is_node =
      let lt : j < length nodes = ground (arith, get_elem?-le nodes j) in
      get_elem?-ext (chunk written (start + j)) n.bytes λ k.
        get_elem?-chunk written (start + j) k ∙ elim (Bool-cases (ltb k len)) [
          | inl small ↦
              let offset : (start + j) * len + k - start * len ≡ j * len + k = omega arith in
              let there = rw offset at (
                get_elem?-changed bytes start (length nodes) (as_bytes nodes) inside exact
                  ((start + j) * len + k)) in
              let small' : k < len = ground arith in
              rw small
                (ground (arith, there, get_elem?-as_bytes nodes j k n are_nodes e small', size))
          | inr large ↦ rw large (sym (get_elem?-le n.bytes k (ground (arith, is_node.0))))
        ]

  -- What each index of the file reads after the write.
  pub node_in-write_over :
      (i : ℕ)
      → node_in written i ≡ (
          if leb start i && ltb i (start + length nodes)
          then get_elem? nodes (i - start)
          else node_in bytes i)
  node_in-write_over i = elim (Bool-cases (leb start i && ltb i (start + length nodes))) [
    | inl inside_run ↦
        let (n, e) = get_elem?-lt nodes (i - start) (ground arith) in
        let place : start + (i - start) ≡ i = ground arith in
        let bytes_of : chunk written i ≡ n.bytes =
          rw place at
            (chunk-inside (i - start) n e (All-get_elem? IsNode nodes (i - start) n are_nodes e)) in
        let found : ltb i (length written / len) ≡ true =
          lt→ltb _ _ (ground (arith, length-write_over)) in
        rw (inside_run, found, e) (ap (λ b. some (record { bytes = b })) bytes_of)
    | inr outside ↦
        let same : chunk written i ≡ chunk bytes i =
          chunk-outside bytes start (length nodes) (as_bytes nodes) inside exact i
            (out i outside) in
        rw (outside, same) (ground (arith, length-write_over))
  ]
    where
      out :
          (i : ℕ)
          → (leb start i && ltb i (start + length nodes)) ≡ false
          → i < start ⊎ (start + length nodes ≤ i)
      out i outside = elim (Bool-cases (leb start i)) [
        | inl above ↦ inr (ground arith)
        | inr below ↦ inl (ground arith)
      ]
