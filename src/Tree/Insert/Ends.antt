-- ===== src/Tree/Insert/Ends.antt =====
-- How the loop over the levels ends: it goes through, or the store refuses the write of a level.
use rs_merkle_tree.Tree.Insert.Levels.{
  Loop, parents, parents-IsRun, parents_fit, hash_level_ok, hashed, raised, raised-Loop,
}
use rs_merkle_tree.Base.{
  if◌then◌else◌, ◌==◌, ℕ, suc, ◌+◌, ◌/◌, ◌^◌, ◌≤◌, ◌<◌, ◌≡◌, List, [], ◌∷◌, ◌++◌, length, arith,
  ◌∙◌, refl, All,
}
use rs_merkle_tree.Run.{Run, MerkleError}
use rs_merkle_tree.Run.Method.{Method, Ends, succeeds, fails, and_then}
use rs_merkle_tree.Node.{Node, IsNode}
use rs_merkle_tree.Store.{Store, StoreLaws}
use rs_merkle_tree.Tree.{MerkleTree, as_u32}
use rs_merkle_tree.Tree.Spec.{stored, IsTree, Represents}
use rs_merkle_tree.Tree.Fetch.Partners.{ArePartners}
use rs_merkle_tree.Tree.Insert.{add_levels}

-- What `add_leaves` leaves behind when the store refuses the write of a level: the levels below it
-- hold all of the nodes, and it and the levels above it those of the old leaves.
pub record Interrupted {S : Type 0} {st : Store S} (laws : StoreLaws st) (depth : ℕ)
    (xs leaves : List Node) (t : MerkleTree S) (level : ℕ) : Type 0 where
  pub is_tree : IsTree depth t
  pub valid : laws.IsValid t.store
  pub level_fits : level ≤ depth
  pub below :
      (k i : ℕ) → k < level → laws.look t.store k i ≡ stored t.hasher.hash (xs ++ leaves) k i
  pub above :
      (k i : ℕ) → level ≤ k → k ≤ depth → laws.look t.store k i ≡ stored t.hasher.hash xs k i
  pub counted :
      st.get_num_leaves t.store ≡ (if level == 0 then length xs else length (xs ++ leaves))
  pub refused : laws.Refuses

-- A method of the store that ends, under the tree.
pub Ends-on_store :
    {S A B : Type 0} {P : S → A → Type 0} {E : S → MerkleError → Type 0}
    {Q : MerkleTree S → B → Type 0} {F : MerkleTree S → MerkleError → Type 0} (t : MerkleTree S)
    {r : S × Run A} (f : A → Method (MerkleTree S) B)
    → Ends P E r
    → ((s : S) (a : A) → P s a → Ends Q F (f a (record t { store = s })))
    → ((s : S) (e : MerkleError) → E s e → F (record t { store = s }) e)
    → Ends Q F (and_then (record t { store = r.0 }, r.1) f)
Ends-on_store t f (succeeds p) k j = k _ _ p
Ends-on_store t f (fails q) k j = fails (j _ _ q)

module _ {S : Type 0} ⦃st : Store S⦄ (laws : StoreLaws st) (depth : ℕ) (small : depth < 64)
    (xs leaves : List Node) (some_leaf : 0 < length leaves)
    (fits : length (xs ++ leaves) ≤ 2 ^ depth) (roomy : 2 ^ depth ≤ laws.capacity)
    (are_nodes : All IsNode (xs ++ leaves)) where
  -- What the loop leaves behind when it is through.
  abbrev pub Inserted : MerkleTree S → MerkleTree S → Type 0
  Inserted t t' = Represents laws depth t' (xs ++ leaves) × (t'.hasher ≡ t.hasher)

  abbrev pub Stopped : MerkleTree S → MerkleTree S → Type 0
  Stopped t t' = (level : ℕ) × Interrupted laws depth xs leaves t' level × (t'.hasher ≡ t.hasher)

  pub add_levels-Ends :
      (ps : List Node) (t : MerkleTree S) (l start n run_len : ℕ)
      → Loop laws depth small xs leaves some_leaf fits roomy are_nodes t l start n run_len
      → l + length ps ≡ depth
      → ArePartners t.hasher.hash xs l ps
      → Ends
          (λ t' _. Inserted t t')
          (λ t' _. Stopped t t')
          (add_levels depth leaves ps l start run_len t)
  unfolding add_levels
  add_levels-Ends [] t l start n run_len v e partners = succeeds (
    record {
      is_tree = v.is_tree;
      valid = v.valid;
      holds = λ k i le. v.done k i (omega arith);
      counted = v.counted;
      fits = fits;
      roomy = roomy;
      are_nodes = are_nodes;
    },
    refl,
  )
  add_levels-Ends (p ∷ ps) t l start n run_len v e partners =
      let lt : l < depth = omega arith in
      let level : as_u32 (l + 1) ≡ suc l = omega arith in
      let put =
        laws.put_ends t.store (suc l) (start / 2)
          (parents laws depth small xs leaves some_leaf fits roomy are_nodes t l start n run_len v)
          v.valid
          (parents-IsRun laws depth small xs leaves some_leaf fits roomy are_nodes t l start n
            run_len v lt)
          (parents_fit laws depth small xs leaves some_leaf fits roomy are_nodes t l start n run_len
            v) in
      rw
        (
          v.run,
          hash_level_ok laws depth small xs leaves some_leaf fits roomy are_nodes t l start n
              run_len v p lt partners.0,
          level,
        )
        (Ends-on_store
          (hashed laws depth small xs leaves some_leaf fits roomy are_nodes t l start n run_len v) _
          put
          (λ s _ (valid, look, counted).
            add_levels-Ends ps
              (raised laws depth small xs leaves some_leaf fits roomy are_nodes t l start n run_len
                v s)
              (suc l) (start / 2) _ _
              (raised-Loop laws depth small xs leaves some_leaf fits roomy are_nodes t l start n
                run_len v s lt valid look (counted ∙ ground arith))
              (omega arith) partners.1)
          (λ s _ (valid, same, count, refused). (
            suc l,
            record {
              is_tree = record {
                is_hasher = v.is_tree.is_hasher;
                front = v.is_tree.front;
                last = v.is_tree.last;
              };
              valid = valid;
              level_fits = lt;
              below = λ k i below. same k i ∙ v.done k i (omega arith);
              above = λ k i above le. same k i ∙ v.todo k i (omega arith) le;
              counted = count ∙ v.counted ∙ ground arith;
              refused = refused;
            },
            refl,
          )))
