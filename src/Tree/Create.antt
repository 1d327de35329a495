-- ===== src/Tree/Create.antt =====
-- `MerkleTree::new` over a store, empty or left by an earlier tree.
use native.Mathlib.Decide.{ℕ_discrete}
use rs_merkle_tree.Base.{
  get_elem?-tabulate, get_elem?-set, lt→ltb, get_elem?-replicate, length-set, length-replicate,
  eq-tabulate, ℕ, zero, suc, ◌+◌, ◌-◌, ◌^◌, ◌≤◌, ◌<◌, ◌≡◌, List, [], some, length, get_elem?, set,
  tabulate, replicate, arith, ap, ◌∙◌, refl, All,
}
use rs_merkle_tree.Run.{IfOk-inv, if_ok, IfOk-itself, IfOk-bind, IfOk, index, ok}
use rs_merkle_tree.Node.{Node, zero_node, IsNode}
use rs_merkle_tree.Hasher.{Hasher, IsHasher}
use rs_merkle_tree.Store.{Store, StoreLaws}
use rs_merkle_tree.Tree.{MerkleTree, fill_zeros, new}
use rs_merkle_tree.Tree.Spec.{zero_at, stored, Represents}

fill_zeros-tabulate :
    (hash : Node → Node → Node) (rounds i : ℕ) (zeros : List Node)
    → 0 < i
    → i + rounds ≡ length zeros
    → ((j : ℕ) → j < i → get_elem? zeros j ≡ some (zero_at hash j))
    → fill_zeros hash rounds i zeros ≡ ok (tabulate (zero_at hash) 0 (length zeros))
unfolding fill_zeros
fill_zeros-tabulate hash zero i zeros pos size below = ap ok (
    eq-tabulate zeros (zero_at hash) 0
      (λ j h. below j (omega arith) ∙ ap (λ k. some (zero_at hash k)) {y = 0 + j} (omega arith)))
fill_zeros-tabulate hash (suc rounds) i zeros pos size below =
    let top = zero_at hash (i - 1) in
    let above : hash top top ≡ zero_at hash i = ap (zero_at hash) {x = suc (i - 1)} (omega arith) in
    let zeros' = set zeros i (zero_at hash i) in
    let size' : length zeros' ≡ length zeros = length-set zeros i (zero_at hash i) in
    rw (below (i - 1) (omega arith), lt→ltb i (length zeros) (omega arith), above)
      (fill_zeros-tabulate hash rounds (suc i) zeros' (omega arith) (omega (arith, size')) (λ j h.
          elim (ℕ_discrete j i) [
            | yes same ↦
                rw same (get_elem?-set zeros i i (zero_at hash i) (omega arith) ∙ ground arith)
            | no other ↦
                get_elem?-set zeros i j (zero_at hash i) (omega arith)
                ∙ ground (arith, below j (omega arith))
          ])
        ∙ ap (λ n. ok (tabulate (zero_at hash) 0 n)) size')

-- The tree that `new` makes at a positive depth.
abbrev pub made : {S : Type 0} → ℕ → Hasher → S → MerkleTree S
made depth hasher s = record {
  hasher = hasher;
  store = s;
  zeros = record {
    front = tabulate (zero_at hasher.hash) 0 depth;
    last = zero_at hasher.hash depth;
  };
  scratch = ([], []);
}

module _ {S : Type 0} ⦃st : Store S⦄ (laws : StoreLaws st) (depth : ℕ) (positive : 0 < depth)
    (hasher : Hasher) (is_hasher : IsHasher hasher) (s : S) (xs : List Node) where
  pub new-made : new depth hasher s ≡ ok (made depth hasher s)
  unfolding new
  new-made =
      let hash = hasher.hash in
      let zeros = replicate depth zero_node in
      let size : length zeros ≡ depth = length-replicate depth zero_node in
      let first : (j : ℕ) → j < 1 → get_elem? zeros j ≡ some (zero_at hash j) = λ j h.
        let here : j ≡ 0 = omega arith in
        rw here (get_elem?-replicate depth zero_node 0 ∙ ground arith) in
      let filled =
        fill_zeros-tabulate hash (depth - 1) 1 zeros (omega arith) (omega (arith, size)) first
        ∙ ap (λ n. ok (tabulate (zero_at hash) 0 n)) size in
      let below = get_elem?-tabulate (zero_at hash) 0 depth (depth - 1) (omega arith) in
      let top : suc (0 + (depth - 1)) ≡ depth = omega arith in
      rw (filled, below)
        (ap
          (λ last. ok (record (made depth hasher s) {
            zeros = record { front = tabulate (zero_at hash) 0 depth; last = last };
          }))
          (ap (zero_at hash) top))

  -- What `new` needs of a store: it holds the leaves `xs` with all of their ancestors.
  pub record Holds : Type 0 where
    pub valid : laws.IsValid s
    pub holds : (l i : ℕ) → l ≤ depth → laws.look s l i ≡ stored hasher.hash xs l i
    pub counted : st.get_num_leaves s ≡ length xs
    pub fits : length xs ≤ 2 ^ depth
    pub roomy : 2 ^ depth ≤ laws.capacity
    pub are_nodes : All IsNode xs

  pub made-Represents : Holds → Represents laws depth (made depth hasher s) xs
  made-Represents h = record {
    is_tree = record { is_hasher = is_hasher; front = refl; last = refl };
    valid = h.valid;
    holds = h.holds;
    counted = h.counted;
    fits = h.fits;
    roomy = h.roomy;
    are_nodes = h.are_nodes;
  }

  -- At a positive depth, with a lawful hasher and over a store that holds at most `2 ^ DEPTH`
  -- leaves `xs` with all of their ancestors (an empty store for no leaves), `new` returns a tree
  -- that represents `xs`.
  pub new-Represents :
      Holds → (t : MerkleTree S) × (new depth hasher s ≡ ok t) × Represents laws depth t xs
  new-Represents h = (made depth hasher s, new-made, made-Represents h)

-- A tree that `new` made has the hasher that it was given.
pub new-hasher :
    {S : Type 0} (depth : ℕ) (hasher : Hasher) (s : S) (t : MerkleTree S)
    → new depth hasher s ≡ ok t
    → t.hasher ≡ hasher
unfolding new
new-hasher depth hasher s t made =
    let front = fill_zeros hasher.hash (depth - 1) 1 (replicate depth zero_node) in
    let any : IfOk (λ t. t.hasher ≡ hasher) (new depth hasher s) =
      IfOk-bind (IfOk-itself front)
        λ front _. IfOk-bind (IfOk-itself (index front (depth - 1))) λ below _. if_ok refl in
    IfOk-inv (rw made at any)
