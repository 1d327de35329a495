-- ===== src/Session/Follows.antt =====
-- What any sequence of calls answers over a store that may refuse a write.
use rs_merkle_tree.Tree.Interrupted.{Interrupted-Failed}
use rs_merkle_tree.Session.Serves.{Serves, Reopens}
use rs_merkle_tree.Tree.Query.{root, num_leaves, verify_proof}
use rs_merkle_tree.Tree.Query.Read.{proof-proof_at}
use rs_merkle_tree.Tree.Query.Root.{root-reference_root}
use rs_merkle_tree.Tree.Insert.Correct.{add_leaves-Ends, add_leaves-tree_full}
use rs_merkle_tree.Session.{
  added, verify_proof, num_leaves, Call, IsCall, call, replay_call, add, ask_root, ask_proof, count,
  check_proof, reopen, is_root, made, counted, checked,
}
use rs_merkle_tree.Tree.Query.Agree.{answer}
use rs_merkle_tree.Tree.Spec.Reference.{reference_root}
use rs_merkle_tree.Hasher.{Hasher}
use rs_merkle_tree.Tree.Query.{climb}
use rs_merkle_tree.Tree.{MerkleTree}
use rs_merkle_tree.Store.{Store, StoreLaws}
use rs_merkle_tree.Run.Method.{Ends-cases}
use rs_merkle_tree.Node.{Node, node_eq}
use rs_merkle_tree.Run.{MerkleError, err, Run, ok}
use rs_merkle_tree.Base.{
  ◌++◌, ℕ, ◌+◌, ◌^◌, ◌<◌, ◌≡◌, ap, ◌∙◌, inl, inr, List, [], ◌∷◌, arith, ltb, Bool-cases, length,
  All,
}

-- The calls on the tree `t` answer as they do over the list of leaves `xs`, but that the store may
-- refuse a write. An `add` that is then as if it had not been called (`unchanged`) is left out of
-- the list. One whose leaves were counted although the root lacks them (`torn`) ends the
-- comparison.
module _ {S : Type 0} ⦃st : Store S⦄ where
  pub data Follows (laws : StoreLaws st) (depth : ℕ) (hasher : Hasher)
      (again : MerkleTree S → Run (MerkleTree S))
      : List Call → MerkleTree S → List Node → Type 0 where
    finished :
        (t : MerkleTree S) (xs : List Node)
        → Serves laws depth hasher t xs
        → Follows laws depth hasher again [] t xs
    answered :
        (c : Call) (calls : List Call) (t t' : MerkleTree S) (xs : List Node)
        → call again depth c t ≡ (t', (replay_call hasher depth c xs).1)
        → Follows laws depth hasher again calls t' (replay_call hasher depth c xs).0
        → Follows laws depth hasher again (c ∷ calls) t xs
    unchanged :
        (leaves : List Node) (calls : List Call) (t t' : MerkleTree S) (xs : List Node)
        (e : MerkleError)
        → laws.Refuses
        → call again depth (add leaves) t ≡ (t', added (err e))
        → Follows laws depth hasher again calls t' xs
        → Follows laws depth hasher again (add leaves ∷ calls) t xs
    torn :
        (leaves : List Node) (calls : List Call) (t t' : MerkleTree S) (xs : List Node)
        (e : MerkleError)
        → laws.Refuses
        → call again depth (add leaves) t ≡ (t', added (err e))
        → root depth t' ≡ root depth t
        → num_leaves t' ≡ num_leaves t + length leaves
        → Follows laws depth hasher again (add leaves ∷ calls) t xs

module _ {S : Type 0} ⦃st : Store S⦄ (laws : StoreLaws st) (depth : ℕ) (hasher : Hasher)
    (again : MerkleTree S → Run (MerkleTree S)) where
  module _ (small : depth < 64) (reopens : Reopens laws depth hasher again) where
    -- A batch, where the calls after it follow from wherever it leads.
    add-Follows :
        (leaves : List Node) (calls : List Call)
        → ((t : MerkleTree S) (xs : List Node)
            → Serves laws depth hasher t xs
            → Follows laws depth hasher again calls t xs)
        → (t : MerkleTree S) (xs : List Node) → Serves laws depth hasher t xs
        → IsCall (add leaves)
        → Follows laws depth hasher again (add leaves ∷ calls) t xs
    add-Follows leaves calls rest t xs s (are_nodes, bounded) =
        let r = s.represents in
        elim (Bool-cases (ltb (2 ^ depth) (length xs + length leaves))) [
          | inl over ↦
              let full =
                add_leaves-tree_full laws depth small t xs r leaves (ground arith)
                  (ground (arith, r.fits)) bounded in
              answered (add leaves) calls t t xs (rw (full, over)) (rw over (rest t xs s))
          | inr fits ↦
              elim (Ends-cases
                (add_leaves-Ends laws depth small t xs r leaves (ground arith) are_nodes)) [
                  | inl (u, _, went_through, (r', kept)) ↦
                      let s' : Serves laws depth hasher u (xs ++ leaves) = record {
                        represents = r';
                        same = kept ∙ s.same;
                      } in
                      answered (add leaves) calls t u xs (rw (went_through, fits))
                        (rw fits (rest u (xs ++ leaves) s'))
                  | inr (u, e, failed, (level, v, same)) ↦
                      let (roots, hashers, either) =
                        Interrupted-Failed laws depth small t xs r leaves u level v same in
                      elim either [
                        | inl (_, r') ↦
                            unchanged leaves calls t u xs e v.refused (rw failed)
                              (rest u xs (record { represents = r'; same = hashers ∙ s.same }))
                        | inr (grown, _) ↦
                            torn leaves calls t u xs e v.refused (rw failed) roots grown
                      ]
                ]
        ]

    -- In a tree of depth below 64 that holds the leaves `xs`, over a store with the laws that can
    -- be opened again with the leaves and the hasher of the tree: every sequence of calls (batches
    -- of nodes that fit or do not, `root`, proofs of any index, `num_leaves`, checks of any proofs,
    -- and openings) answers, one by one, as it does over the list of the leaves, as long as the
    -- store takes the writes; an `add` of which it refuses a write fails, and either the calls go
    -- on as if it had not been there, or the root is as before while the leaves are counted, and
    -- the comparison ends.
    pub run-Follows :
        (calls : List Call) (t : MerkleTree S) (xs : List Node)
        → Serves laws depth hasher t xs
        → All IsCall calls
        → Follows laws depth hasher again calls t xs
    unfolding num_leaves verify_proof
    run-Follows [] t xs s good = finished t xs s
    run-Follows (add leaves ∷ calls) t xs s (first, good) =
        add-Follows leaves calls (λ t xs s. run-Follows calls t xs s good) t xs s first
    run-Follows (ask_root ∷ calls) t xs s (_, good) =
        let by_reference =
          root-reference_root laws depth small t xs s.represents
          ∙ ap (λ (h : Hasher). reference_root h.hash depth xs) s.same in
        answered ask_root calls t t xs (ap (λ a. (t, is_root a)) by_reference)
          (run-Follows calls t xs s good)
    run-Follows (ask_proof leaf_idx ∷ calls) t xs s (_, good) =
        let by_leaves =
          proof-proof_at laws depth small t xs s.represents leaf_idx
          ∙ ap (answer depth xs leaf_idx) s.same in
        answered (ask_proof leaf_idx) calls t t xs (ap (λ a. (t, made a)) by_leaves)
          (run-Follows calls t xs s good)
    run-Follows (count ∷ calls) t xs s (_, good) =
        answered count calls t t xs (ap (λ n. (t, counted n)) s.represents.counted)
          (run-Follows calls t xs s good)
    run-Follows (check_proof p ∷ calls) t xs s (_, good) =
        let climbs = λ (h : Hasher). climb h p.index 0 p.leaf p.proof in
        answered (check_proof p) calls t t xs
          (ap (λ h. (t, checked (ok (node_eq (climbs h) p.root)))) s.same)
          (run-Follows calls t xs s good)
    run-Follows (reopen ∷ calls) t xs s (_, good) =
        let (t', back, s') = reopens t xs s in
        answered reopen calls t t' xs (rw back) (run-Follows calls t' xs s' good)
