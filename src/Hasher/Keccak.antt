-- ===== src/Hasher/Keccak.antt =====
-- src/hasher.rs: `Keccak256Hasher`. The two functions of the crate keccak_batch are parameters:
-- `keccak256` hashes a message, and `keccak256_many_into` gives what its output holds after it
-- has hashed a batch of messages into it.
use rs_merkle_tree.Hasher.Chunks.{for_each_chunk, for_each_chunk-map_each}
use rs_merkle_tree.Hasher.{IsPair, IsHasher, panic, ok, Hasher, hash_pair}
use rs_merkle_tree.Base.{
  copy_at, inr, ==_iff, inl, Bool-cases, map-append, ◌∙◌, if◌then◌else◌, le→ltb, false, ltb, sym,
  ap₂, refl, arith, length-append, length-drop, length-replicate, length-map, length-take, All,
  drop_all, take-append, suc, ◌+◌, ap, map, drop, ◌≡◌, ◌≤◌, ◌==◌, [], ◌++◌, length, replicate, take,
  ◌∷◌, ◌*◌, ℕ, List,
}
use rs_merkle_tree.Run.{slice_to, ◌>>=◌, ◌>>◌, check, Run}
use rs_merkle_tree.Node.{as_bytes, len, IsNode, Node}

-- `MESSAGE`
abbrev message_len : ℕ
message_len = 2 * len

-- `STAGE`
abbrev stage : ℕ
stage = 8

-- `for (slot, v) in slots.iter_mut().zip(values) { *slot = v }`
unfoldable assign_zip {ℓ} : {A : Type ℓ} → List A → List A → List A
assign_zip [] values = []
assign_zip (s ∷ slots) [] = s ∷ slots
assign_zip (s ∷ slots) (v ∷ values) = v ∷ assign_zip slots values

module _ (keccak256 : List ℕ → List ℕ)
    (keccak256_many_into : List (List ℕ) → List (List ℕ) → List (List ℕ)) where
  unfoldable pub keccak_hash : Node → Node → Node
  keccak_hash left right =
      let message = replicate message_len 0 in
      let message = copy_at message 0 left.bytes in
      let message = copy_at message len right.bytes in record { bytes = keccak256 message }

  -- The body of the loop: one group of at most `STAGE` pairs and the parents that it writes.
  unfoldable hash_group : List (Node × Node) → List Node → Run (List Node)
  unfolding as_bytes assign_zip
  hash_group group parents = do
    let staged = assign_zip (replicate stage []) (map (λ p. as_bytes (p.0 ∷ p.1 ∷ [])) group)
    let digests = replicate stage (replicate len 0)
    messages ← slice_to staged (length group)
    out ← slice_to digests (length group)
    let digests = keccak256_many_into messages out ++ drop (length group) digests
    ok (assign_zip parents (map (λ digest. record { bytes = digest }) digests))

  unfoldable pub keccak_hash_pairs : List (Node × Node) → List Node → Run (List Node)
  unfolding hash_group
  keccak_hash_pairs pairs out =
      check (length pairs == length out) >> for_each_chunk stage hash_group pairs out

  abbrev pub keccak_hasher : Hasher
  keccak_hasher = record { hash = keccak_hash; hash_pairs = keccak_hash_pairs }

assign_zip-take {ℓ} :
    {A : Type ℓ} (slots values : List A)
    → length values ≤ length slots
    → take (length values) (assign_zip slots values) ≡ values
unfolding assign_zip
assign_zip-take [] [] h = refl
assign_zip-take [] (v ∷ values) h = absurd (omega arith)
assign_zip-take (s ∷ slots) [] h = refl
assign_zip-take (s ∷ slots) (v ∷ values) h = ap (◌∷◌ v) (assign_zip-take slots values (omega arith))

assign_zip-length {ℓ} :
    {A : Type ℓ} (slots values : List A) → length (assign_zip slots values) ≡ length slots
unfolding assign_zip
assign_zip-length [] values = refl
assign_zip-length (s ∷ slots) [] = refl
assign_zip-length (s ∷ slots) (v ∷ values) = ap suc (assign_zip-length slots values)

assign_zip-append {ℓ} :
    {A : Type ℓ} (slots values more : List A)
    → length slots ≡ length values
    → assign_zip slots (values ++ more) ≡ values
unfolding assign_zip
assign_zip-append [] [] more h = refl
assign_zip-append [] (v ∷ values) more h = absurd (omega arith)
assign_zip-append (s ∷ slots) [] more h = absurd (omega arith)
assign_zip-append (s ∷ slots) (v ∷ values) more h =
    ap (◌∷◌ v) (assign_zip-append slots values more (omega arith))

-- The message of two nodes is the bytes of the pair.
message-as_bytes :
    (left right : Node)
    → IsNode left
    → IsNode right
    → copy_at (copy_at (replicate message_len 0) 0 left.bytes) len right.bytes
      ≡ as_bytes (left ∷ right ∷ [])
unfolding as_bytes
message-as_bytes left right l r =
    let rest = drop (0 + length left.bytes) (replicate message_len 0) in
    let first : take len (left.bytes ++ rest) ≡ left.bytes = take-append left.bytes rest len l.0 in
    let whole : drop (len + length right.bytes) (left.bytes ++ rest) ≡ [] =
      drop_all (len + length right.bytes) (left.bytes ++ rest) (
        omega (
          arith,
          l.0,
          r.0,
          length-append left.bytes rest,
          length-drop {A = ℕ} (0 + length left.bytes) (replicate message_len 0),
          length-replicate {A = ℕ} message_len 0,
        )) in
    rw (first, whole) refl

module _ (keccak256 : List ℕ → List ℕ)
    (keccak256_many_into : List (List ℕ) → List (List ℕ) → List (List ℕ))
    (many_into : (messages out : List (List ℕ))
      → length messages ≡ length out
      → keccak256_many_into messages out ≡ map keccak256 messages) where
  digests-map :
      (group : List (Node × Node))
      → All IsPair group
      → map
          (λ digest. record { bytes = digest })
          (map keccak256 (map (λ p. as_bytes (p.0 ∷ p.1 ∷ [])) group))
        ≡ map (hash_pair (keccak_hash keccak256 keccak256_many_into)) group
  unfolding keccak_hash
  digests-map [] each = refl
  digests-map ((left, right) ∷ group) each =
      ap₂ (λ message nodes. record { bytes = keccak256 message } ∷ nodes)
        (sym (message-as_bytes left right each.0.0 each.0.1)) (digests-map group each.1)

  hash_group-map :
      (group : List (Node × Node)) (parents : List Node)
      → length group ≡ length parents
      → length group ≤ stage
      → All IsPair group
      → hash_group keccak256 keccak256_many_into group parents
        ≡ ok (map (hash_pair (keccak_hash keccak256 keccak256_many_into)) group)
  unfolding hash_group
  hash_group-map group parents same short each =
      let slots : List (List ℕ) = replicate stage [] in
      let digests : List (List ℕ) = replicate stage (replicate len 0) in
      let bytes : Node × Node → List ℕ = λ p. as_bytes (p.0 ∷ p.1 ∷ []) in
      let size = length-map bytes group in
      let slotted : length (assign_zip slots (map bytes group)) ≡ stage =
        assign_zip-length slots (map bytes group) in
      let fits : ltb (length (assign_zip slots (map bytes group))) (length group) ≡ false =
        le→ltb _ _ (omega (arith, slotted)) in
      let fits' : ltb (length digests) (length group) ≡ false = le→ltb _ _ short in
      let staged : take (length group) (assign_zip slots (map bytes group)) ≡ map bytes group =
        ap (λ n. take n (assign_zip slots (map bytes group))) (sym size)
        ∙ assign_zip-take slots (map bytes group) (omega (arith, size)) in
      let hashes = map keccak256 (map bytes group) in
      let to_node : List ℕ → Node = λ digest. record { bytes = digest } in
      let unused = drop (length group) digests in
      let nodes : length parents ≡ length (map to_node hashes) =
        omega (arith, size, length-map keccak256 (map bytes group), length-map to_node hashes) in
      let hashed =
        many_into (map bytes group) (take (length group) digests)
          (omega (arith, size, length-take (length group) digests)) in
      rw (fits, fits', staged, hashed)
        (ap ok (
          ap (assign_zip parents) (map-append to_node hashes unused)
          ∙ assign_zip-append parents (map to_node hashes) (map to_node unused) nodes
          ∙ digests-map group each))

  -- Where `keccak256_many_into` hashes each message as `keccak256` does: the `hash_pairs` of
  -- `Keccak256Hasher`, which works in groups of `STAGE` pairs, hashes pair by pair where `pairs`
  -- (of nodes of 32 bytes) and `out` have the same length, and panics where they have not.
  pub keccak_hash_pairs-map :
      (pairs : List (Node × Node)) (out : List Node)
      → All IsPair pairs
      → (keccak_hasher keccak256 keccak256_many_into).hash_pairs pairs out ≡ (
          if length pairs == length out
          then ok (map (hash_pair (keccak_hasher keccak256 keccak256_many_into).hash) pairs)
          else panic)
  unfolding keccak_hash_pairs
  keccak_hash_pairs-map pairs out each = elim (Bool-cases (length pairs == length out)) [
    | inl same ↦ rw same (
        for_each_chunk-map_each IsPair stage (omega arith)
          (hash_group keccak256 keccak256_many_into)
          (hash_pair (keccak_hash keccak256 keccak256_many_into)) pairs out hash_group-map
          ((==_iff _ _).0 same) each)
    | inr other ↦ rw other
  ]

  -- Where `keccak256` gives 32 bytes and `keccak256_many_into` hashes each message as `keccak256`
  -- does, `Keccak256Hasher` keeps the laws that the tree asks of a hasher: every hash is a node,
  -- and `hash_pairs` hashes pairs of nodes pair by pair.
  pub keccak_hasher-IsHasher :
      ((message : List ℕ) → IsNode (record { bytes = keccak256 message }))
      → IsHasher (keccak_hasher keccak256 keccak256_many_into)
  unfolding keccak_hash
  keccak_hasher-IsHasher digests = record {
    pairs_ok = λ pairs out same each. keccak_hash_pairs-map pairs out each ∙ ground arith;
    hash-IsNode = λ left right. digests _;
  }
