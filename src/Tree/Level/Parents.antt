-- ===== src/Tree/Level/Parents.antt =====
-- A level of `add_leaves` computes the parents of its run.
use rs_merkle_tree.Base.{
  tabulate-append, length-tabulate, ℕ, zero, suc, ◌+◌, ◌-◌, ◌*◌, ◌/◌, ◌%◌, ◌≤◌, ◌<◌, ◌≡◌, List, ◌∷◌,
  ◌++◌, length, tabulate, arith, ap, ap₂, ◌∙◌, refl,
}
use native.Mathlib.Decide.{ℕ_discrete}
use rs_merkle_tree.Run.{ok}
use rs_merkle_tree.Node.{Node, IsNode}
use rs_merkle_tree.Hasher.{Hasher, IsHasher}
use rs_merkle_tree.Tree.{Zeros, zeros_index}
use rs_merkle_tree.Tree.Level.{hash_level}
use rs_merkle_tree.Tree.Level.Pairs.{pair_up}
use rs_merkle_tree.Tree.Level.Writes.{head_len-mod, tail_parents, hash_level-even, hash_level-odd}

module _ (depth : ℕ) (hasher : Hasher) (zeros : Zeros) (level : ℕ) (left_partner : Node)
    (f : ℕ → Node) (is_hasher : IsHasher hasher) (are_nodes : (i : ℕ) → IsNode (f i)) where
  abbrev parent : ℕ → Node
  parent = pair_up hasher.hash f

  tail_parents-tabulate :
      (q p t : ℕ) (z : Node)
      → t < 2
      → (t ≡ 1 → z ≡ f (suc ((q + p) * 2)))
      → tail_parents hasher.hash (tabulate f (q * 2 + p * 2) t) z ≡ tabulate parent (q + p) t
  tail_parents-tabulate q p zero z h e = refl
  tail_parents-tabulate q p (suc zero) z h e =
      let sum : q * 2 + p * 2 ≡ (q + p) * 2 = omega arith in rw (sum, e refl)
  tail_parents-tabulate q p (suc (suc t)) z h e = absurd (omega arith)

  -- The run `f start, …` of `n` nodes, cut into its body and its tail.
  module _ (z : Node) (hz : zeros_index depth zeros level ≡ ok z) (buffer : List Node) (q p t : ℕ)
      (short : t < 2) (start : ℕ) where
    even_run :
        start ≡ q * 2
        → (t ≡ 1 → z ≡ f (suc ((q + p) * 2)))
        → p + t ≤ length buffer
        → hash_level depth hasher zeros level left_partner start
            (tabulate f (q * 2) (p * 2 + t))
            buffer
          ≡ ok (tabulate parent q (p + t))
    even_run even e room =
        let rest = tabulate f (q * 2 + p * 2) t in
        let size : length rest ≡ t = length-tabulate f (q * 2 + p * 2) t in
        rw (← tabulate-append f (q * 2) (p * 2) t) (
          hash_level-even depth hasher zeros level left_partner f is_hasher are_nodes rest
            (omega (arith, size)) p z hz buffer q start (head_len-mod start ∙ omega arith)
            (omega (arith, size))
          ∙ ap (λ tail. ok (tabulate parent q p ++ tail)) (tail_parents-tabulate q p t z short e)
          ∙ ap ok (tabulate-append parent q p t))

    odd_run :
        start ≡ suc (q * 2)
        → left_partner ≡ f (q * 2)
        → (t ≡ 1 → z ≡ f (suc ((suc q + p) * 2)))
        → suc (p + t) ≤ length buffer
        → hash_level depth hasher zeros level left_partner start
            (f (suc (q * 2)) ∷ tabulate f (suc q * 2) (p * 2 + t))
            buffer
          ≡ ok (tabulate parent q (suc (p + t)))
    odd_run odd left e room =
        let rest = tabulate f (suc q * 2 + p * 2) t in
        let size : length rest ≡ t = length-tabulate f (suc q * 2 + p * 2) t in
        rw (← tabulate-append f (suc q * 2) (p * 2) t) (
          hash_level-odd depth hasher zeros level left_partner f is_hasher are_nodes rest
            (omega (arith, size)) p z hz buffer (suc q) start (f (suc (q * 2)))
            (head_len-mod start ∙ omega arith) (omega (arith, size))
          ∙ ap
              (λ tail.
                ok (
                  hasher.hash left_partner (f (suc (q * 2))) ∷ (tabulate parent (suc q) p ++ tail)))
              (tail_parents-tabulate (suc q) p t z short e)
          ∙ ap₂ (λ n tail. ok (hasher.hash n (f (suc (q * 2))) ∷ tail)) left
              (tabulate-append parent (suc q) p t))

  -- The parents of a run of consecutive nodes, whatever its parity at either end.
  pub hash_level-tabulate :
      (start n : ℕ) (z : Node) (buffer : List Node)
      → zeros_index depth zeros level ≡ ok z
      → 0 < n
      → (start % 2 ≡ 1 → left_partner ≡ f (start - 1))
      → ((start + n) % 2 ≡ 1 → z ≡ f (start + n))
      → (start + n + 1) / 2 - start / 2 ≤ length buffer
      → hash_level depth hasher zeros level left_partner start (tabulate f start n) buffer
        ≡ ok (tabulate parent (start / 2) ((start + n + 1) / 2 - start / 2))
  hash_level-tabulate start n z buffer hz pos left right room = elim (ℕ_discrete (start % 2) 0) [
    | yes even ↦
        let q = start / 2 in
        let p = n / 2 in
        let t = n % 2 in
        let run =
          even_run z hz buffer q p t (omega arith) start (omega arith)
            (λ one. right (omega arith) ∙ ap f (omega arith)) (omega arith) in
        let from : start / 2 * 2 ≡ start = omega arith in
        let count : n / 2 * 2 + n % 2 ≡ n = omega arith in
        let out : n / 2 + n % 2 ≡ (start + n + 1) / 2 - start / 2 = omega arith in
        rw (from, count, out) at run
    | no odd ↦
        let q = start / 2 in
        let p = (n - 1) / 2 in
        let t = (n - 1) % 2 in
        let run =
          odd_run z hz buffer q p t (omega arith) start (omega arith)
            (left (omega arith) ∙ ap f (omega arith))
            (λ one. right (omega arith) ∙ ap f (omega arith)) (omega arith) in
        let from : start ≡ suc (q * 2) = omega arith in
        let count : n ≡ suc (p * 2 + t) = omega arith in
        let nodes : tabulate f start n ≡ f (suc (q * 2)) ∷ tabulate f (suc q * 2) (p * 2 + t) =
          ap₂ (tabulate f) from count
          ∙ ap (λ k. f (suc (q * 2)) ∷ tabulate f k (p * 2 + t)) {x = suc (suc (q * 2))}
              (omega arith) in
        let out : suc (p + t) ≡ (start + n + 1) / 2 - start / 2 = omega arith in
        rw nodes (run ∙ ap (λ k. ok (tabulate parent q k)) out)
  ]
