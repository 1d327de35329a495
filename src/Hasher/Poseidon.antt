-- ===== src/Hasher/Poseidon.antt =====
-- src/hasher.rs: `PoseidonHasher`. The crate light_poseidon is a parameter: the construction of a
-- hasher for a number of inputs, and the hash of inputs given as bytes, the most significant first.
use rs_merkle_tree.Node.{Node, IsNode}
use rs_merkle_tree.Run.{◌>>=◌, or_panic, Run, ok, panic, or_panic}
use rs_merkle_tree.Base.{ℕ, ◌≤◌, ◌<◌, ◌≡◌, ◌⊎◌, Option, none, some, List, [], ◌∷◌}
use rs_merkle_tree.KeyValue.Keys.{from_be_bytes}

module _ {P : Type 0} (new_circom : ℕ → Option P)
    (hash_bytes_be : P → List (List ℕ) → Option (List ℕ)) where
  -- `PoseidonHasher::hash`: both `unwrap`s panic where the crate gives an error.
  unfoldable pub poseidon_hash : Node → Node → Run Node
  poseidon_hash left right = do
    poseidon ← or_panic (new_circom 2)
    res ← or_panic (hash_bytes_be poseidon (left.bytes ∷ right.bytes ∷ []))
    ok (record { bytes = res })

  -- The number that a node stands for, as an element of the field.
  abbrev pub IsElement : ℕ → Node → Type 0
  IsElement modulus n = IsNode n × (from_be_bytes 0 n.bytes < modulus)

  -- What the crate documents of the hash of two inputs: it takes 32 bytes that are a number below
  -- the modulus of the field and refuses others, and a hash is such a number.
  pub record CircomLaws : Type 0 where
    pub modulus : ℕ
    pub positive : 0 < modulus
    pub poseidon : P
    pub circom_ok : new_circom 2 ≡ some poseidon
    pub accepts :
        (l r : Node)
        → IsElement modulus l
        → IsElement modulus r
        → (h : Node) × (hash_bytes_be poseidon (l.bytes ∷ r.bytes ∷ []) ≡ some h.bytes)
          × IsElement modulus h
    pub refuses :
        (l r : Node)
        → IsNode l
        → IsNode r
        → (modulus ≤ from_be_bytes 0 l.bytes) ⊎ (modulus ≤ from_be_bytes 0 r.bytes)
        → hash_bytes_be poseidon (l.bytes ∷ r.bytes ∷ []) ≡ none

  module _ (laws : CircomLaws) where
    -- Two elements of the field are hashed to one.
    pub poseidon_hash_ok :
        (l r : Node)
        → IsElement laws.modulus l
        → IsElement laws.modulus r
        → (h : Node) × (poseidon_hash l r ≡ ok h) × IsElement laws.modulus h
    unfolding poseidon_hash
    poseidon_hash_ok l r is_left is_right =
        let (h, hashed, is_element) = laws.accepts l r is_left is_right in
        (h, rw (laws.circom_ok, hashed), is_element)

    -- A node that is no element of the field makes it panic.
    pub poseidon_hash-panic :
        (l r : Node)
        → IsNode l
        → IsNode r
        → (laws.modulus ≤ from_be_bytes 0 l.bytes) ⊎ (laws.modulus ≤ from_be_bytes 0 r.bytes)
        → poseidon_hash l r ≡ panic
    unfolding poseidon_hash
    poseidon_hash-panic l r is_left is_right large =
        rw (laws.circom_ok, laws.refuses l r is_left is_right large)
