-- ===== src/Tree/Query/Read.antt =====
-- What `root` and `proof` read from a tree that holds the leaves `xs`.
use rs_merkle_tree.Tree.Query.Root.{root-node_at}
use rs_merkle_tree.Base.{
  ltb, if◌then◌else◌, length-replicate, replicate, take-append, length-append, append_assoc,
  length-set, lt→ltb, take_all, append-nil, set, take, ℕ, zero, suc, ◌+◌, ◌/◌, ◌^◌, ◌≤◌, ◌<◌, ◌≡◌,
  List, [], ◌∷◌, ◌++◌, Option, length, arith, ap, ◌∙◌, sym, refl, bit_xor, All-append, Bool-cases,
  inl, inr, false,
}
use native.Mathlib.Nat.{pow-le-pow_right}
use rs_merkle_tree.Base.Bits.{bit_xor-one}
use rs_merkle_tree.Run.{ok, err, leaf_index_out_of_bounds, unwrap_or}
use rs_merkle_tree.Node.{Node, zero_node}
use rs_merkle_tree.Store.{Store, StoreLaws, look_each, AreWords}
use rs_merkle_tree.Tree.{MerkleTree, MerkleProof, zeros_index, bit64, as_u32}
use rs_merkle_tree.Tree.Spec.{node_at, zero_at, Represents}
use rs_merkle_tree.Tree.Spec.Facts.{unwrap-stored}
use rs_merkle_tree.Tree.Insert.Levels.{zeros_index-zero_at}
use rs_merkle_tree.Tree.Query.{sibling_list, fill_proof, last_fetched, read_proof, proof}
use rs_merkle_tree.Tree.Query.Path.{path_from}

look_each-append :
    (look : ℕ → ℕ → Option Node) (levels indices : List ℕ) (l i : ℕ)
    → length levels ≡ length indices
    → look_each look (levels ++ l ∷ []) (indices ++ i ∷ [])
      ≡ look_each look levels indices ++ look l i ∷ []
look_each-append look [] [] l i h = refl
look_each-append look [] (j ∷ indices) l i h = absurd (omega arith)
look_each-append look (k ∷ levels) [] l i h = absurd (omega arith)
look_each-append look (k ∷ levels) (j ∷ indices) l i h =
    ap (◌∷◌ (look k j)) (look_each-append look levels indices l i (omega arith))

last_fetched-append :
    (fetched : List (Option Node)) (o : Option Node) → last_fetched (fetched ++ o ∷ []) ≡ o
unfolding last_fetched
last_fetched-append [] o = refl
last_fetched-append (a ∷ []) o = refl
last_fetched-append (a ∷ b ∷ fetched) o = last_fetched-append (b ∷ fetched) o

length-sibling_list :
    (rounds level i : ℕ)
    → (length (sibling_list rounds level i).0 ≡ rounds)
      × (length (sibling_list rounds level i).1 ≡ rounds)
unfolding sibling_list
length-sibling_list zero level i = (refl, refl)
length-sibling_list (suc rounds) level i =
    let (ls, is) = length-sibling_list rounds (suc level) (i / 2) in (ap suc ls, ap suc is)

sibling_list-AreWords :
    (rounds level i : ℕ)
    → i < 2 ^ 64
    → AreWords (sibling_list rounds level i).0 (sibling_list rounds level i).1
unfolding sibling_list
sibling_list-AreWords zero level i h = (tt, tt)
sibling_list-AreWords (suc rounds) level i h =
    let rest = sibling_list-AreWords rounds (suc level) (i / 2) (omega arith) in
    ((omega arith, rest.0), (omega (arith, bit_xor-one i), rest.1))

AreWords-append :
    (levels indices : List ℕ) (l i : ℕ)
    → AreWords levels indices
    → l < 2 ^ 32
    → i < 2 ^ 64
    → AreWords (levels ++ l ∷ []) (indices ++ i ∷ [])
AreWords-append levels indices l i words small word = (
  All-append (λ l. l < 2 ^ 32) levels (l ∷ []) words.0 (small, tt),
  All-append (λ i. i < 2 ^ 64) indices (i ∷ []) words.1 (word, tt),
)

length-look_each :
    (look : ℕ → ℕ → Option Node) (levels indices : List ℕ)
    → length levels ≡ length indices
    → length (look_each look levels indices) ≡ length levels
length-look_each look [] [] h = refl
length-look_each look [] (j ∷ indices) h = absurd (omega arith)
length-look_each look (k ∷ levels) [] h = absurd (omega arith)
length-look_each look (k ∷ levels) (j ∷ indices) h =
    ap suc (length-look_each look levels indices (omega arith))

take-suc-set :
    {A : Type 0} (xs : List A) (d : ℕ) (v : A)
    → d < length xs
    → take (suc d) (set xs d v) ≡ take d xs ++ v ∷ []
take-suc-set [] d v h = absurd (omega arith)
take-suc-set (x ∷ xs) zero v h = refl
take-suc-set (x ∷ xs) (suc d) v h = ap (◌∷◌ x) (take-suc-set xs d v (omega arith))

module _ {S : Type 0} ⦃st : Store S⦄ (laws : StoreLaws st) (depth : ℕ) (small : depth < 64)
    (t : MerkleTree S) (xs : List Node) (r : Represents laws depth t xs) where
  abbrev hash : Node → Node → Node
  hash = t.hasher.hash

  -- Reading a position, with the zero of its level where nothing is stored, gives the node there.
  look_or_zero :
      (l i : ℕ)
      → l ≤ depth
      → unwrap_or (laws.look t.store l i) (zero_at hash l) ≡ node_at hash xs l i
  look_or_zero l i h =
      ap (λ o. unwrap_or o (zero_at hash l)) (r.holds l i h) ∙ unwrap-stored hash xs l i

  zero_ok : (l : ℕ) → l ≤ depth → zeros_index depth t.zeros l ≡ ok (zero_at hash l)
  zero_ok = zeros_index-zero_at depth t r.is_tree

  fill_proof-path_from :
      (rounds d i : ℕ) (before : List Node)
      → d + rounds ≡ depth
      → length before ≡ depth
      → fill_proof depth t.zeros d
          (look_each (laws.look t.store) (sibling_list rounds d i).0 (sibling_list rounds d i).1)
          before
        ≡ ok (take d before ++ path_from hash xs rounds d i)
  unfolding fill_proof sibling_list
  fill_proof-path_from zero d i before e size =
      ap ok (sym (append-nil (take d before) ∙ take_all d before (omega arith)))
  fill_proof-path_from (suc rounds) d i before e size =
      let narrow : as_u32 d ≡ d = omega arith in
      let v = node_at hash xs d (bit_xor i 1) in
      let inside : d < length before = omega arith in
      rw
        (
          narrow,
          zero_ok d (omega arith),
          look_or_zero d (bit_xor i 1) (omega arith),
          lt→ltb d (length before) inside,
        )
        (fill_proof-path_from rounds (suc d) (i / 2) (set before d v) (omega arith)
            (length-set before d v ∙ size)
          ∙ ap (λ p. ok (p ++ path_from hash xs rounds (suc d) (i / 2)))
              (take-suc-set before d v inside)
          ∙ ap ok (append_assoc (take d before) (v ∷ []) _))

  -- The proof of an index: its siblings, its leaf, and the root.
  abbrev pub proof_at : ℕ → MerkleProof
  proof_at leaf_idx = record {
    proof = path_from hash xs depth 0 leaf_idx;
    leaf = node_at hash xs 0 leaf_idx;
    index = leaf_idx;
    root = node_at hash xs depth 0;
  }

  read_proof-proof_at :
      (leaf_idx : ℕ) → leaf_idx < 2 ^ 64 → read_proof depth leaf_idx t ≡ ok (proof_at leaf_idx)
  unfolding read_proof
  read_proof-proof_at leaf_idx word =
      let levels = (sibling_list depth 0 leaf_idx).0 in
      let indices = (sibling_list depth 0 leaf_idx).1 in
      let (many, same) = length-sibling_list depth 0 leaf_idx in
      let look = laws.look t.store in
      let fetched = look_each look levels indices in
      let size : length fetched ≡ depth =
        length-look_each look levels indices (many ∙ sym same) ∙ many in
      let sizes : length (levels ++ 0 ∷ []) ≡ length (indices ++ leaf_idx ∷ []) =
        omega (
          arith,
          length-append levels (0 ∷ []),
          length-append indices (leaf_idx ∷ []),
          many,
          same,
        ) in
      rw (
        laws.get_ok t.store (levels ++ 0 ∷ []) (indices ++ leaf_idx ∷ []) r.valid
            (AreWords-append levels indices 0 leaf_idx (sibling_list-AreWords depth 0 leaf_idx word)
              (omega arith) word)
            (omega (arith, length-append levels (0 ∷ []), many)) sizes,
        look_each-append look levels indices 0 leaf_idx (many ∙ sym same),
        take-append fetched (look 0 leaf_idx ∷ []) depth size,
        fill_proof-path_from depth 0 leaf_idx (replicate depth zero_node) (omega arith)
            (length-replicate depth zero_node),
        zero_ok 0 (omega arith),
        last_fetched-append fetched (look 0 leaf_idx),
        look_or_zero 0 leaf_idx (omega arith),
        root-node_at laws depth small t xs r,
      )

  -- In a tree of depth below 64 that holds the leaves `xs`: `proof` refuses an index above
  -- `2 ^ DEPTH`; for any other it returns the siblings on the way
  -- to the root, the leaf (a zero past the last one), and the root.
  pub proof-proof_at :
      (leaf_idx : ℕ)
      → proof depth leaf_idx t ≡ (
          if ltb (2 ^ depth) leaf_idx
          then err (leaf_index_out_of_bounds leaf_idx (2 ^ depth))
          else ok (proof_at leaf_idx))
  unfolding proof
  proof-proof_at leaf_idx =
      let places : bit64 depth ≡ 2 ^ depth = ap (λ k. 2 ^ k) (omega arith) in
      elim (Bool-cases (ltb (2 ^ depth) leaf_idx)) [
        | inl above ↦ rw (places, above)
        | inr within ↦ rw (places, within) (read_proof-proof_at leaf_idx (word leaf_idx within))
      ]
    where
      word : (i : ℕ) → ltb (2 ^ depth) i ≡ false → i < 2 ^ 64
      word i within =
          let bound : 2 ^ depth ≤ 2 ^ 63 =
            pow-le-pow_right {n = 2} (omega arith) {j = 63} (omega arith) in
          ground arith
