-- ===== src/Tree/Spec/Reference.antt =====
-- `reference_root` of the tests in src/tree.rs, which roots the padded list of leaves bottom up,
-- and that it gives the root node.
use native.Mathlib.Nat.{pow-suc}
use rs_merkle_tree.Base.{
  get_elem?-lt, get_elem?-le, get_elem?-replicate, get_elem?-drop, get_elem?-append, le→ltb,
  eq-tabulate, length-replicate, length-drop, length-append, ℕ, zero, suc, ◌+◌, ◌-◌, ◌*◌, ◌^◌, ◌≤◌,
  ◌≡◌, List, [], ◌∷◌, ◌++◌, length, drop, tabulate, replicate, arith, ap, ◌∙◌, refl, ltb,
  if◌then◌else◌,
}
use rs_merkle_tree.Run.{Run, ok, panic, ◌>>=◌, index}
use rs_merkle_tree.Node.{Node, zero_node}
use rs_merkle_tree.Tree.Spec.{node_at}

-- `level.chunks(2).map(|pair| hash(&pair[0], &pair[1]))`
halve : (Node → Node → Node) → List Node → Run (List Node)
halve hash [] = ok []
halve hash (a ∷ []) = panic
halve hash (a ∷ b ∷ xs) = do rest ← halve hash xs; ok (hash a b ∷ rest)

halve_times : (Node → Node → Node) → ℕ → List Node → Run (List Node)
halve_times hash zero xs = ok xs
halve_times hash (suc rounds) xs = do level ← halve hash xs; halve_times hash rounds level

unfoldable pub reference_root : (Node → Node → Node) → ℕ → List Node → Run Node
unfolding halve halve_times
reference_root hash depth leaves = if ltb (2 ^ depth) (length leaves) then panic else (do
  let level = leaves ++ drop (length leaves) (replicate (2 ^ depth) zero_node)
  top ← halve_times hash depth level
  index top 0)

halve-tabulate :
    (hash : Node → Node → Node) (f : ℕ → Node) (n q : ℕ)
    → halve hash (tabulate f (q * 2) (n * 2))
      ≡ ok (tabulate (λ i. hash (f (i * 2)) (f (suc (i * 2)))) q n)
unfolding halve
halve-tabulate hash f zero q = refl
halve-tabulate hash f (suc n) q =
    let count : suc n * 2 ≡ suc (suc (n * 2)) = omega arith in
    let next : suc (suc (q * 2)) ≡ suc q * 2 = omega arith in
    rw (count, next, halve-tabulate hash f n (suc q))

halve_times-tabulate :
    (hash : Node → Node → Node) (xs : List Node) (rounds l : ℕ)
    → halve_times hash rounds (tabulate (node_at hash xs l) 0 (2 ^ rounds))
      ≡ ok (node_at hash xs (l + rounds) 0 ∷ [])
unfolding halve_times
halve_times-tabulate hash xs zero l = ap (λ k. ok (node_at hash xs k 0 ∷ [])) (omega arith)
halve_times-tabulate hash xs (suc rounds) l =
    let sum : l + suc rounds ≡ suc l + rounds = omega arith in
    rw (pow-suc 2 rounds, sum, halve-tabulate hash (node_at hash xs l) (2 ^ rounds) 0)
      (halve_times-tabulate hash xs rounds (suc l))

-- For at most `2 ^ depth` leaves the reference computation gives the root of the padded tree.
pub reference_root-node_at :
    (hash : Node → Node → Node) (depth : ℕ) (xs : List Node)
    → length xs ≤ 2 ^ depth
    → reference_root hash depth xs ≡ ok (node_at hash xs depth 0)
unfolding reference_root
reference_root-node_at hash depth xs fits =
    let places = replicate (2 ^ depth) zero_node in
    let padding = drop (length xs) places in
    let size : length (xs ++ padding) ≡ 2 ^ depth = omega (
      arith,
      length-append xs padding,
      length-drop (length xs) places,
      length-replicate (2 ^ depth) zero_node,
    ) in
    let level : xs ++ padding ≡ tabulate (node_at hash xs 0) 0 (2 ^ depth) =
      eq-tabulate (xs ++ padding) (node_at hash xs 0) 0 (λ i h.
        let again : length xs ≤ i → length xs + (i - length xs) ≡ i = ground arith in
        let same : 0 + i ≡ i = omega arith in
        rw same (
          ground (
            arith,
            size,
            get_elem?-append xs padding i,
            get_elem?-drop (length xs) places (i - length xs),
            get_elem?-replicate (2 ^ depth) zero_node i,
            get_elem?-le xs i,
            get_elem?-lt xs i,
            again,
          )))
      ∙ ap (tabulate (node_at hash xs 0) 0) size in
    let total : 0 + depth ≡ depth = omega arith in
    rw (le→ltb (2 ^ depth) (length xs) fits, level, halve_times-tabulate hash xs depth 0, total)
