-- ===== src/Checks/OnZeros.antt =====
-- The tests of src/tree.rs on the cached zeros, as functions of the hasher.
use native.Mathlib.Decide.{ℕ_discrete}
use rs_merkle_tree.Memory.{memory_store}
use rs_merkle_tree.Memory.Laws.{memory_laws}
use rs_merkle_tree.Tree.Create.{new-made}
use rs_merkle_tree.Tree.Spec.{zero_at}
use mathlib.Core.Bool.{false≢true}
use rs_merkle_tree.Hasher.{IsHasher, Hasher}
use rs_merkle_tree.Node.Hex.{try_from, to_node, code_points}
use rs_merkle_tree.Node.{node_eq_iff, Node, node_eq}
use rs_merkle_tree.Run.{err, panic, or_panic, ◌>>=◌, ◌>>◌, Run, ok, check, index}
use rs_merkle_tree.Base.{
  get_elem?-le, length-tabulate, ◌≤◌, ◌<◌, tabulate, get_elem?-tabulate, ◌+◌, ◌∙◌, ◌≢◌, ◌⊎◌, arith,
  get_elem?, sym, ap, ◌↔◌, inl, inr, Option, none, some, Bool-cases, ℕ, zero, suc, ◌≡◌, refl, List,
  [], ◌∷◌, length,
}
use rs_merkle_tree.Memory
use rs_merkle_tree.Tree
use Prim.Native.String.{String}
use rs_merkle_tree.Checks.Vectors.{keccak_zeros, poseidon_zeros}

-- `to_node!` of each text.
unfoldable pub to_nodes : List String → Run (List Node)
to_nodes [] = ok []
to_nodes (text ∷ texts) = do n ← to_node (code_points text); rest ← to_nodes texts; ok (n ∷ rest)

-- `for (i, zero) in tree.zeros.front.iter().enumerate()`, from `i` on.
unfoldable pub check_front : ℕ → List Node → List Node → Run (Unit {0})
check_front i [] expected = ok tt
check_front i (node ∷ zeros) expected = do
  e ← index expected i
  check (node_eq node e)
  check_front (suc i) zeros expected

-- What the two tests share.
unfoldable pub zeros_32 : Hasher → List String → Run (Unit {0})
zeros_32 hasher texts = do
  tree ← Tree.new 32 hasher Memory.new
  expected ← to_nodes texts
  check_front 0 tree.zeros.front expected
  last ← index expected 32
  check (node_eq tree.zeros.last last)
  ok tt

-- `test_zero_keccak_32`
unfoldable pub zero_keccak_32 : Hasher → Run (Unit {0})
unfolding zeros_32
zero_keccak_32 hasher = zeros_32 hasher keccak_zeros

-- `test_zero_poseidon_32`
unfoldable pub zero_poseidon_32 : Hasher → Run (Unit {0})
unfolding zeros_32
zero_poseidon_32 hasher = zeros_32 hasher poseidon_zeros

-- All of the texts are nodes.
keccak_texts : (es : List Node) × (to_nodes keccak_zeros ≡ ok es) × (length es ≡ 33)
unfolding to_nodes to_node try_from
keccak_texts = (_, refl, refl)

poseidon_texts : (es : List Node) × (to_nodes poseidon_zeros ≡ ok es) × (length es ≡ 33)
unfolding to_nodes to_node try_from
poseidon_texts = (_, refl, refl)

-- The check of one node, and then the rest, pass exactly where the node is the expected one.
one_check :
    (o : Option Node) (z : Node) (rest : Run (Unit {0}))
    → ((o ≡ some z) × ((or_panic o >>= λ e. check (node_eq z e) >> rest) ≡ rest))
      ⊎ ((o ≢ some z) × ((or_panic o >>= λ e. check (node_eq z e) >> rest) ≡ panic))
one_check none z rest = inr (λ e. absurd (cc e), refl)
one_check (some e) z rest = elim (Bool-cases (node_eq z e)) [
  | inl same ↦ inl (ap some (sym ((node_eq_iff z e).0 same)), rw same)
  | inr other ↦ inr (
    λ found. let e≡z : e ≡ z = cc found in false≢true (sym other ∙ (node_eq_iff z e).1 (sym e≡z)),
    rw other,
  )
]

next_too :
    (i : ℕ) (node : Node) (zeros es : List Node)
    → get_elem? es i ≡ some node
    → ((j : ℕ) (z : Node) → get_elem? zeros j ≡ some z → get_elem? es (suc i + j) ≡ some z)
    → (j : ℕ) (z : Node) → get_elem? (node ∷ zeros) j ≡ some z
    → get_elem? es (i + j) ≡ some z
next_too i node zeros es same later zero z found =
    let here : i + 0 ≡ i = omega arith in rw here (same ∙ found)
next_too i node zeros es same later (suc j) z found =
    let next : i + suc j ≡ suc i + j = omega arith in rw next (later j z found)

-- The loop passes exactly where each zero of the tree is the expected one.
check_front_iff :
    (i : ℕ) (zeros es : List Node)
    → (check_front i zeros es ≡ ok tt)
      ↔ ((j : ℕ) (z : Node) → get_elem? zeros j ≡ some z → get_elem? es (i + j) ≡ some z)
unfolding check_front
check_front_iff i [] es = (λ _ j z found. absurd (cc found), λ _. refl)
check_front_iff i (node ∷ zeros) es =
    let (forth, back) = check_front_iff (suc i) zeros es in
    let here : i + 0 ≡ i = omega arith in
    let next : (j : ℕ) → suc i + j ≡ i + suc j = λ j. omega arith in
    elim (one_check (get_elem? es i) node (check_front (suc i) zeros es)) [
      | inl (same, goes_on) ↦ (
        λ passes. next_too i node zeros es same (forth (sym goes_on ∙ passes)),
        λ each. goes_on ∙ back (λ j z found. rw (next j) (each (suc j) z found)),
      )
      | inr (other, stops) ↦ (
        λ passes. absurd (cc (sym stops ∙ passes)),
        λ each. absurd (other (rw here at (each 0 node refl))),
      )
    ]

both_ok : (r k : Run (Unit {0})) → ((r >> k) ≡ ok tt) → (r ≡ ok tt) × (k ≡ ok tt)
both_ok (ok tt) k passes = (refl, passes)
both_ok (err e) k passes = absurd (cc passes)
both_ok panic k passes = absurd (cc passes)

-- For texts of nodes and a lawful hasher: the test passes exactly where each text is that of the
-- root of the empty subtree of its height.
zeros_32_iff :
    (hasher : Hasher) (texts : List String) (es : List Node)
    → IsHasher hasher
    → to_nodes texts ≡ ok es
    → (zeros_32 hasher texts ≡ ok tt)
      ↔ ((l : ℕ) → l ≤ 32 → get_elem? es l ≡ some (zero_at hasher.hash l))
unfolding zeros_32
zeros_32_iff hasher texts es is_hasher parsed =
    let hash = hasher.hash in
    let front = tabulate (zero_at hash) 0 32 in
    let (forth, back) = check_front_iff 0 front es in
    let made = new-made memory_laws 32 (omega arith) hasher is_hasher Memory.new [] in
    let at : (j : ℕ) → j < 32 → get_elem? front j ≡ some (zero_at hash j) = λ j inside.
      let sum : 0 + j ≡ j = omega arith in
      get_elem?-tabulate (zero_at hash) 0 32 j inside ∙ ap (λ k. some (zero_at hash k)) sum in
    let last = one_check (get_elem? es 32) (zero_at hash 32) (ok tt) in
    rw (made, parsed)
      (
        λ passes l le.
            let (loop, end) = both_ok _ _ passes in
            elim (ℕ_discrete l 32) [
              | yes top ↦ elim last [
                | inl (found, _) ↦ rw top found
                | inr (_, stops) ↦ absurd (cc (sym stops ∙ end))
              ]
              | no below ↦
                  let sum : 0 + l ≡ l = omega arith in
                  rw sum at (forth loop l (zero_at hash l) (at l (omega arith)))
            ],
        λ each.
            let loop : check_front 0 front es ≡ ok tt = back λ j z found.
              let inside : j < 32 =
                ground (arith, get_elem?-le front j, length-tabulate (zero_at hash) 0 32) in
              let sum : 0 + j ≡ j = omega arith in
              rw sum (each j (omega arith) ∙ sym (at j inside) ∙ found) in
            elim last [
              | inl (_, passes) ↦ rw loop passes
              | inr (other, _) ↦ absurd (other (each 32 (omega arith)))
            ],
      )

zero_keccak_32_iff :
    (hasher : Hasher)
    → IsHasher hasher
    → (zero_keccak_32 hasher ≡ ok tt)
      ↔ ((l : ℕ) → l ≤ 32 → get_elem? keccak_texts.0 l ≡ some (zero_at hasher.hash l))
unfolding zero_keccak_32
zero_keccak_32_iff hasher is_hasher =
    zeros_32_iff hasher keccak_zeros keccak_texts.0 is_hasher keccak_texts.1

zero_poseidon_32_iff :
    (hasher : Hasher)
    → IsHasher hasher
    → (zero_poseidon_32 hasher ≡ ok tt)
      ↔ ((l : ℕ) → l ≤ 32 → get_elem? poseidon_texts.0 l ≡ some (zero_at hasher.hash l))
unfolding zero_poseidon_32
zero_poseidon_32_iff hasher is_hasher =
    zeros_32_iff hasher poseidon_zeros poseidon_texts.0 is_hasher poseidon_texts.1
