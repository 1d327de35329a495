-- ===== src/KeyValue/Keys.antt =====
-- Integers as bytes, the most significant first, and keys made of two of them.
use native.Mathlib.Nat.{pow-suc}
use rs_merkle_tree.Run.{index}
use rs_merkle_tree.Base.{
  ℕ, zero, suc, ◌+◌, ◌*◌, ◌/◌, ◌%◌, ◌^◌, ◌<◌, ◌≡◌, refl, sym, ap, ◌∙◌, ◌≢◌, List, [], ◌∷◌, ◌++◌,
  arith, length, take, drop, length-append, take-append, drop-append,
}

-- `to_be_bytes` of an integer of `n` bytes
abbrev pub be_bytes : ℕ → ℕ → List ℕ
be_bytes zero v = []
be_bytes (suc n) v = be_bytes n (v / 256) ++ (v % 256) ∷ []

-- `from_be_bytes`, with what was read before.
abbrev pub from_be_bytes : ℕ → List ℕ → ℕ
from_be_bytes acc [] = acc
from_be_bytes acc (b ∷ bytes) = from_be_bytes (acc * 256 + b) bytes

pub length-be_bytes : (n v : ℕ) → length (be_bytes n v) ≡ n
length-be_bytes zero v = refl
length-be_bytes (suc n) v =
    omega
      (arith, length-append (be_bytes n (v / 256)) ((v % 256) ∷ []), length-be_bytes n (v / 256))

from_be_bytes-append :
    (acc : ℕ) (xs ys : List ℕ)
    → from_be_bytes acc (xs ++ ys) ≡ from_be_bytes (from_be_bytes acc xs) ys
from_be_bytes-append acc [] ys = refl
from_be_bytes-append acc (x ∷ xs) ys = from_be_bytes-append (acc * 256 + x) xs ys

pub from_be_bytes-be_bytes : (n v : ℕ) → v < 256 ^ n → from_be_bytes 0 (be_bytes n v) ≡ v
from_be_bytes-be_bytes zero v h = omega arith
from_be_bytes-be_bytes (suc n) v h =
    from_be_bytes-append 0 (be_bytes n (v / 256)) ((v % 256) ∷ [])
    ∙ omega (arith, from_be_bytes-be_bytes n (v / 256) (omega (arith, pow-suc 256 n)))

-- The key of a node: its level and its index.
abbrev pub key_of : ℕ → ℕ → List ℕ
key_of level index = be_bytes 4 level ++ be_bytes 8 index

pub length-key_of : (level index : ℕ) → length (key_of level index) ≡ 12
length-key_of level index = omega (
  arith,
  length-append (be_bytes 4 level) (be_bytes 8 index),
  length-be_bytes 4 level,
  length-be_bytes 8 index,
)

-- Keys of u32 levels and u64 indices tell both apart.
pub key_of-injective :
    (l i k j : ℕ)
    → l < 2 ^ 32
    → k < 2 ^ 32
    → i < 2 ^ 64
    → j < 2 ^ 64
    → key_of l i ≡ key_of k j
    → (l ≡ k) × (i ≡ j)
key_of-injective l i k j hl hk hi hj same =
    let level : (m n : ℕ) → m < 2 ^ 32 → from_be_bytes 0 (take 4 (key_of m n)) ≡ m = λ m n h.
      ap (from_be_bytes 0) (take-append (be_bytes 4 m) (be_bytes 8 n) 4 (length-be_bytes 4 m))
      ∙ from_be_bytes-be_bytes 4 m h in
    let index : (m n : ℕ) → n < 2 ^ 64 → from_be_bytes 0 (drop 4 (key_of m n)) ≡ n = λ m n h.
      ap (from_be_bytes 0) (drop-append (be_bytes 4 m) (be_bytes 8 n) 4 (length-be_bytes 4 m))
      ∙ from_be_bytes-be_bytes 8 n h in
    (
      sym (level l i hl) ∙ ap (λ key. from_be_bytes 0 (take 4 key)) same ∙ level k j hk,
      sym (index l i hi) ∙ ap (λ key. from_be_bytes 0 (drop 4 key)) same ∙ index k j hj,
    )

-- `b"NUM_LEAVES"`
abbrev pub num_leaves_key : List ℕ
num_leaves_key = b'N' ∷ b'U' ∷ b'M' ∷ b'_' ∷ b'L' ∷ b'E' ∷ b'A' ∷ b'V' ∷ b'E' ∷ b'S' ∷ []

-- The number of leaves has a key of its own, by its length.
pub key_of-ne-num_leaves_key : (level index : ℕ) → key_of level index ≢ num_leaves_key
key_of-ne-num_leaves_key level index same =
    let size = ap length same in absurd (omega (arith, size, length-key_of level index))
