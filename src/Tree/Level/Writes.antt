-- ===== src/Tree/Level/Writes.antt =====
-- The writes of one level: the head, the tail and the body of a run, each in its place.
use rs_merkle_tree.Base.{
  le→ltb, length-take, length-tabulate, length-map, length-set, lt→ltb, drop_all, ℕ, zero, suc, ◌+◌,
  ◌*◌, ◌%◌, ◌≤◌, ◌<◌, ◌≡◌, List, [], ◌∷◌, ◌++◌, length, tabulate, arith, ap, ◌∙◌, sym, refl, take,
  drop, set,
}
use rs_merkle_tree.Base.Bits.{bit_and-pow}
use rs_merkle_tree.Run.{ok}
use rs_merkle_tree.Node.{Node, IsNode}
use rs_merkle_tree.Hasher.{Hasher, IsHasher, hash_pair}
use rs_merkle_tree.Tree.{Zeros, zeros_index}
use rs_merkle_tree.Tree.Level.{as_chunks, write_head, write_tail, head_len, hash_level}
use rs_merkle_tree.Tree.Level.Pairs.{pair_up, as_chunks-tabulate, as_chunks-IsPair, write_body-map}

pub head_len-mod : (start : ℕ) → head_len start ≡ start % 2
unfolding head_len
head_len-mod start = ground (arith, bit_and-pow start 0)

module _ {ℓ} {A : Type ℓ} where
  drop-set_last : (n : ℕ) (xs : List A) (v : A) → length xs ≡ suc n → drop n (set xs n v) ≡ v ∷ []
  drop-set_last zero (x ∷ []) v h = refl
  drop-set_last (suc n) (x ∷ xs) v h = drop-set_last n xs v (omega arith)
  drop-set_last n xs v h = absurd (omega arith)

  take-set : (n : ℕ) (xs : List A) (v : A) → take n (set xs n v) ≡ take n xs
  take-set zero xs v = refl
  take-set (suc n) [] v = refl
  take-set (suc n) (x ∷ xs) v = ap (◌∷◌ x) (take-set n xs v)

  take_one : (n : ℕ) (xs : List A) → take 1 (take (1 + n) xs) ≡ take 1 xs
  take_one n [] = let e : 1 + n ≡ suc n = omega arith in rw e
  take_one n (x ∷ xs) = let e : 1 + n ≡ suc n = omega arith in rw e

  take-set_first : (xs : List A) (v : A) → 0 < length xs → take 1 (set xs 0 v) ≡ v ∷ []
  take-set_first [] v h = absurd (omega arith)
  take-set_first (x ∷ xs) v h = refl

-- What the tail of a run contributes, with the zero of the level.
abbrev pub tail_parents : (Node → Node → Node) → List Node → Node → List Node
tail_parents hash [] z = []
tail_parents hash (x ∷ _) z = hash x z ∷ []

module _ (depth : ℕ) (hasher : Hasher) (zeros : Zeros) (level : ℕ) (left_partner : Node)
    (f : ℕ → Node) (is_hasher : IsHasher hasher) (are_nodes : (i : ℕ) → IsNode (f i)) where
  abbrev pub parent : ℕ → Node
  parent = pair_up hasher.hash f

  -- The slice after the tail's parent is written.
  abbrev tail_written : List Node → List Node → ℕ → Node → List Node
  tail_written [] parents at z = parents
  tail_written (x ∷ _) parents at z = set parents at (hasher.hash x z)

  write_tail_ok :
      (tail parents : List Node) (at : ℕ) (z : Node)
      → length tail < 2
      → zeros_index depth zeros level ≡ ok z
      → length parents ≡ at + length tail
      → (write_tail depth hasher zeros level tail at parents ≡ ok (tail_written tail parents at z))
        × (length (tail_written tail parents at z) ≡ length parents)
        × (take at (tail_written tail parents at z) ≡ take at parents)
        × (drop at (tail_written tail parents at z) ≡ tail_parents hasher.hash tail z)
  unfolding write_tail
  write_tail_ok [] parents at z short hz size =
      (refl, refl, refl, drop_all at parents (omega arith))
  write_tail_ok (x ∷ []) parents at z short hz size = (
    rw (hz, lt→ltb at (length parents) (omega arith)),
    length-set parents at _,
    take-set at parents (hasher.hash x z),
    drop-set_last at parents _ (omega arith),
  )
  write_tail_ok (x ∷ y ∷ r) parents at z short hz size = absurd (omega arith)

  module _ (rest : List Node) (short : length rest < 2) (p : ℕ) (z : Node)
      (hz : zeros_index depth zeros level ≡ ok z) (buffer : List Node) where
    -- The body and the tail of a run that begins at an even index.
    pub hash_level-even :
        (q start : ℕ)
        → head_len start ≡ 0
        → p + length rest ≤ length buffer
        → hash_level depth hasher zeros level left_partner start
            (tabulate f (q * 2) (p * 2) ++ rest)
            buffer
          ≡ ok (tabulate parent q p ++ tail_parents hasher.hash rest z)
    unfolding hash_level write_head
    hash_level-even q start even room =
        let nodes = tabulate f (q * 2) (p * 2) ++ rest in
        let (hashed, tail) = as_chunks-tabulate hasher.hash f rest short p q in
        let pairs = (as_chunks nodes).0 in
        let count : length pairs ≡ p =
          sym (length-map (hash_pair hasher.hash) pairs)
          ∙ ap length hashed
          ∙ length-tabulate parent q p in
        let parents = take (0 + p + length rest) buffer in
        let size : length parents ≡ 0 + p + length rest =
          omega (arith, length-take (0 + p + length rest) buffer) in
        let out = tail_written rest parents (0 + p) z in
        let (written, same, kept, last) =
          write_tail_ok rest parents (0 + p) z short hz (omega (arith, size)) in
        rw (
          even,
          le→ltb (length nodes) 0 (omega arith),
          tail,
          count,
          le→ltb (length buffer) (0 + p + length rest) (omega arith),
          written,
          write_body-map hasher pairs 0 out is_hasher (as_chunks-IsPair f rest are_nodes short p q)
              (omega arith),
          hashed,
          count,
          last,
        )

    -- A run that begins at an odd index has its first node paired with the stored left partner.
    pub hash_level-odd :
        (q start : ℕ) (first : Node)
        → head_len start ≡ 1
        → 1 + p + length rest ≤ length buffer
        → hash_level depth hasher zeros level left_partner start
            (first ∷ (tabulate f (q * 2) (p * 2) ++ rest))
            buffer
          ≡ ok (
              hasher.hash left_partner first
              ∷ (tabulate parent q p ++ tail_parents hasher.hash rest z))
    unfolding hash_level write_head
    hash_level-odd q start first odd room =
        let nodes = tabulate f (q * 2) (p * 2) ++ rest in
        let (hashed, tail) = as_chunks-tabulate hasher.hash f rest short p q in
        let pairs = (as_chunks nodes).0 in
        let count : length pairs ≡ p =
          sym (length-map (hash_pair hasher.hash) pairs)
          ∙ ap length hashed
          ∙ length-tabulate parent q p in
        let taken = take (1 + p + length rest) buffer in
        let size : length taken ≡ 1 + p + length rest =
          omega (arith, length-take (1 + p + length rest) buffer) in
        let headed = hasher.hash left_partner first in
        let parents = set taken 0 headed in
        let out = tail_written rest parents (1 + p) z in
        let (written, same, kept, last) =
          write_tail_ok rest parents (1 + p) z short hz
            (omega (arith, size, length-set taken 0 headed)) in
        rw (
          odd,
          le→ltb (length (first ∷ nodes)) 1 (omega arith),
          tail,
          count,
          le→ltb (length buffer) (1 + p + length rest) (omega arith),
          lt→ltb 0 (length taken) (omega (arith, size)),
          written,
          write_body-map hasher pairs 1 out is_hasher (as_chunks-IsPair f rest are_nodes short p q)
              (omega (arith, length-set taken 0 headed)),
          hashed,
          count,
          last,
          sym (take_one p out)
              ∙ ap (take 1) kept
              ∙ take_one p parents
              ∙ take-set_first taken headed (omega (arith, size)),
        )
