-- ===== src/Hasher.antt =====
-- src/hasher.rs: the `Hasher` trait with its default method, and what a hasher promises.
pub mod Chunks
pub mod Default
pub mod Poseidon
pub mod Keccak
use rs_merkle_tree.Base.{ℕ, ◌≡◌, refl, All, List, [], ◌∷◌, ◌++◌, map, arith, ◌==◌, length}
use rs_merkle_tree.Run.{Run, ok, panic, ◌>>=◌, ◌>>◌, check}
use rs_merkle_tree.Node.{Node, IsNode}

-- `hash_pairs` takes what `out` holds and returns what it holds afterwards.
pub record Hasher : Type 0 where
  pub hash : Node → Node → Node
  pub hash_pairs : List (Node × Node) → List Node → Run (List Node)

-- `for (parent, [left, right]) in out.iter_mut().zip(pairs) { *parent = hash(left, right) }`
unfoldable pub fill : (Node → Node → Node) → List (Node × Node) → List Node → List Node
fill hash pairs [] = []
fill hash [] (o ∷ out) = o ∷ out
fill hash ((left, right) ∷ pairs) (o ∷ out) = hash left right ∷ fill hash pairs out

-- The default `hash_pairs`.
unfoldable pub default_hash_pairs :
    (Node → Node → Node) → List (Node × Node) → List Node → Run (List Node)
unfolding fill
default_hash_pairs hash pairs out = check (length pairs == length out) >> ok (fill hash pairs out)

abbrev pub hash_pair : (Node → Node → Node) → Node × Node → Node
hash_pair hash (left, right) = hash left right

abbrev pub IsPair : Node × Node → Type 0
IsPair p = IsNode p.0 × IsNode p.1

-- What the trait's comment asks of an implementation.
pub record IsHasher (h : Hasher) : Type 0 where
  pub pairs_ok :
      (pairs : List (Node × Node)) (out : List Node)
      → length pairs ≡ length out
      → All IsPair pairs
      → h.hash_pairs pairs out ≡ ok (map (hash_pair h.hash) pairs)
  pub hash-IsNode : (left right : Node) → IsNode (h.hash left right)
