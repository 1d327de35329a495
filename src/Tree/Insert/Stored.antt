-- ===== src/Tree/Insert/Stored.antt =====
-- Writing the run of a level turns what the store holds of the old leaves into what it holds of
-- all of them.
use rs_merkle_tree.Base.{
  get_elem?-append, get_elem?-lt, eq-tabulate, get_elem?-tabulate, length-append, length-tabulate,
  ℕ, zero, suc, ◌+◌, ◌-◌, ◌≤◌, ◌<◌, ◌≡◌, ◌≢◌, List, ◌++◌, Option, none, length, tabulate, arith,
  All,
}
use rs_merkle_tree.Node.{Node}
use rs_merkle_tree.Store.{write_run}
use rs_merkle_tree.Tree.Spec.{node_at, full, width, stored}
use rs_merkle_tree.Tree.Spec.Facts.{full-le-width, width_mono, node_at_prefix}

pub width_le : (l n : ℕ) → width l n ≤ n
width_le zero n = omega arith
width_le (suc l) n = omega (arith, width_le l n)

pub All-tabulate {ℓ κ} :
    {A : Type ℓ} (P : A → Type κ) (f : ℕ → A) (start n : ℕ)
    → ((i : ℕ) → P (f i))
    → All P (tabulate f start n)
All-tabulate P f start zero h = tt
All-tabulate P f start (suc n) h = (h start, All-tabulate P f (suc start) n h)

module _ (hash : Node → Node → Node) (xs leaves : List Node) where
  -- The leaves themselves are the run of level 0.
  pub leaves-tabulate :
      leaves ≡ tabulate (node_at hash (xs ++ leaves) 0) (length xs) (length leaves)
  leaves-tabulate = eq-tabulate leaves (node_at hash (xs ++ leaves) 0) (length xs) (λ i h.
      let (x, e) = get_elem?-lt leaves i h in
      let less : length xs + i - length xs ≡ i = omega arith in
      ground (arith, get_elem?-append xs leaves (length xs + i)))

  pub stored-write_run :
      (look : ℕ → ℕ → Option Node) (l start n i : ℕ)
      → start ≡ full l (length xs)
      → start + n ≡ width l (length (xs ++ leaves))
      → look l i ≡ stored hash xs l i
      → write_run look l start (tabulate (node_at hash (xs ++ leaves) l) start n) l i
        ≡ stored hash (xs ++ leaves) l i
  stored-write_run look l start n i from to before =
      let f = node_at hash (xs ++ leaves) l in
      let size = length-tabulate f start n in
      let again : start ≤ i → start + (i - start) ≡ i = ground arith in
      ground (
        arith,
        size,
        full-le-width l (length xs),
        width_mono l (length xs) (length (xs ++ leaves)),
        length-append xs leaves,
        node_at_prefix hash xs leaves l i,
        get_elem?-tabulate f start n (i - start),
        again,
      )

  pub stored-no_hole :
      (look : ℕ → ℕ → Option Node) (l : ℕ)
      → ((i : ℕ) → look l i ≡ stored hash xs l i)
      → (i : ℕ) → i < full l (length xs)
      → look l i ≢ none
  stored-no_hole look l h i lt e = ground (arith, h i, full-le-width l (length xs))
