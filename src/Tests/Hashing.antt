-- ===== src/Tests/Hashing.antt =====
-- The theorems on the hashers and on the text of a node, over a small hash, and the default tree.
use rs_merkle_tree.Hasher.Poseidon.{CircomLaws, poseidon_hash}
use rs_merkle_tree.KeyValue.Keys.{from_be_bytes}
use rs_merkle_tree.Node.{Node, IsNode}
use rs_merkle_tree.Tests.{sum, node, node-IsNode, five, five-nodes}
use rs_merkle_tree.Base.{
  ◌≤◌, ◌⊎◌, inl, inr, lt→ltb, le→ltb, ◌+◌, ◌*◌, ◌^◌, ◌<◌, ◌&&◌, Option, none, some, ltb, map,
  if◌then◌else◌, ℕ, zero, suc, ◌%◌, ◌≡◌, List, [], ◌∷◌, ◌++◌, replicate, arith, refl,
}
use rs_merkle_tree.Run.{ok}
use rs_merkle_tree.Hasher.{IsHasher}
use rs_merkle_tree.Hasher.Keccak.{keccak_hasher, keccak_hasher-IsHasher}
use rs_merkle_tree.Node.Hex.{parsed, try_from, display, try_from-display}
use rs_merkle_tree.Tree32.{Answers, default, default-Answers}

abbrev digest : List ℕ → List ℕ
digest message = replicate 32 (sum message % 251)

abbrev digests_into : List (List ℕ) → List (List ℕ) → List (List ℕ)
digests_into messages out = map digest messages

default-Answers_example :
    Answers 32 (keccak_hasher digest digests_into) (default digest digests_into) five 7
default-Answers_example =
    default-Answers digest digests_into (λ messages out same. refl)
      (λ message. node-IsNode (sum message % 251) (omega arith)) five 7 five-nodes (omega arith)
      (omega arith)

keccak_hasher-IsHasher_example : IsHasher (keccak_hasher digest digests_into)
keccak_hasher-IsHasher_example =
    keccak_hasher-IsHasher digest digests_into (λ messages out same. refl)
      (λ message. node-IsNode (sum message % 251) (omega arith))

try_from-display_example : try_from (display (node 171)) ≡ parsed (node 171)
try_from-display_example = try_from-display (node 171) (node-IsNode 171 (omega arith))

abbrev repeat : ℕ → List ℕ → List ℕ
repeat zero s = []
repeat (suc n) s = s ++ repeat n s

-- Thirty-two times "+f" is read as a node.
sign_accepted : try_from (repeat 32 (43 ∷ 102 ∷ [])) ≡ parsed (node 15)
unfolding try_from
sign_accepted = refl

-- A hash of numbers below 2 ^ 200.
abbrev modulus : ℕ
modulus = 2 ^ 200

abbrev sum_of : List (List ℕ) → Option (List ℕ)
sum_of (l ∷ r ∷ []) =
    if ltb (from_be_bytes 0 l) modulus && ltb (from_be_bytes 0 r) modulus
    then some (replicate 31 0 ++ ((3 * from_be_bytes 0 l + from_be_bytes 0 r) % 251) ∷ [])
    else none
sum_of _ = none

abbrev circom : ℕ → Option (Unit {0})
circom n = some tt

abbrev hash_bytes_be : Unit {0} → List (List ℕ) → Option (List ℕ)
hash_bytes_be _ inputs = sum_of inputs

abbrev small : ℕ → Node
small b = record { bytes = replicate 31 0 ++ b ∷ [] }

small-IsNode : (b : ℕ) → b < 251 → IsNode (small b)
small-IsNode b h = ground arith

value-small : (b : ℕ) → from_be_bytes 0 (small b).bytes ≡ b
value-small b = omega arith

abbrev value : Node → ℕ
value n = from_be_bytes 0 n.bytes

refuses :
    (l r : Node)
    → IsNode l
    → IsNode r
    → (modulus ≤ value l) ⊎ (modulus ≤ value r)
    → hash_bytes_be tt (l.bytes ∷ r.bytes ∷ []) ≡ none
refuses l r is_left is_right (inl large) = rw (le→ltb (value l) modulus large)
refuses l r is_left is_right (inr large) = rw (le→ltb (value r) modulus large) (ground arith)

abbrev circom_laws : CircomLaws circom hash_bytes_be
circom_laws = record {
  modulus = modulus;
  positive = omega arith;
  poseidon = tt;
  circom_ok = refl;
  accepts = λ l r is_left is_right.
      let total = (3 * value l + value r) % 251 in
      (
        small total,
        rw (lt→ltb (value l) modulus is_left.1, lt→ltb (value r) modulus is_right.1),
        (small-IsNode total (omega arith), rw (value-small total) (omega arith)),
      );
  refuses = refuses;
}

small-hash : poseidon_hash circom hash_bytes_be (small 7) (small 9) ≡ ok (small 30)
unfolding poseidon_hash
small-hash = refl
