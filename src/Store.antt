-- ===== src/Store.antt =====
-- src/stores/store.rs: the `Store` trait, and what the tree relies on.
use native.Mathlib.Decide.{ℕ_discrete}
use rs_merkle_tree.Base.{
  All-get_elem?, suc, inl, inr, some, arith, Bool-cases, ◌≤◌, ℕ, ◌+◌, ◌-◌, ◌<◌, ◌≤◌, ◌^◌, max, ◌≡◌,
  ◌≢◌, ◌&&◌, List, [], ◌∷◌, Option, none, ◌==◌, leb, ltb, length, get_elem?, if◌then◌else◌, All,
}
use rs_merkle_tree.Run.{index, Run, ok, err, length_mismatch}
use rs_merkle_tree.Run.Method.{Method, Ends}
use rs_merkle_tree.Node.{len, Node, IsNode}

-- The trait. `put` leaves a state behind whether it succeeds or not.
pub record Store (S : Type 0) : Type 0 where
  pub get : S → List ℕ → List ℕ → Run (List (Option Node))
  pub put : ℕ → ℕ → List Node → Method S (Unit {0})
  pub get_num_leaves : S → ℕ

-- `look` at each position of two lists of the same length.
abbrev pub look_each : (ℕ → ℕ → Option Node) → List ℕ → List ℕ → List (Option Node)
look_each look (level ∷ levels) (index ∷ indices) = look level index ∷ look_each look levels indices
look_each look _ _ = []

-- What a position reads after a run has been written at `start` of `level`.
abbrev pub write_run : (ℕ → ℕ → Option Node) → ℕ → ℕ → List Node → ℕ → ℕ → Option Node
write_run look level start nodes l i =
    if l == level && (leb start i && ltb i (start + length nodes))
    then get_elem? nodes (i - start)
    else look l i

-- A run is its first node and the rest of it.
pub write_run-cons :
    (look look' : ℕ → ℕ → Option Node) (level start : ℕ) (n : Node) (nodes : List Node)
    → ((l i : ℕ) → look' l i ≡ (if l == level && i == start then some n else look l i))
    → (l i : ℕ)
    → write_run look' level (suc start) nodes l i ≡ write_run look level start (n ∷ nodes) l i
write_run-cons look look' level start n nodes first l i = elim (ℕ_discrete i start) [
  | yes here ↦ let offset : i - start ≡ 0 = omega arith in rw offset (ground (arith, first l i))
  | no other ↦ elim (Bool-cases (leb start i)) [
    | inl above ↦
        let next : i - start ≡ suc (i - suc start) = ground arith in
        rw next (ground (arith, first l i))
    | inr below ↦ ground (arith, first l i)
  ]
]

-- Where every node that was read has its length, and every node of a run, so has each one after it.
pub write_run-whole :
    (look : ℕ → ℕ → Option Node) (level start : ℕ) (nodes : List Node)
    → All IsNode nodes
    → ((l i : ℕ) (n : Node) → look l i ≡ some n → length n.bytes ≡ len)
    → (l i : ℕ) (n : Node) → write_run look level start nodes l i ≡ some n
    → length n.bytes ≡ len
write_run-whole look level start nodes are_nodes whole l i n e =
    elim (Bool-cases (l == level && (leb start i && ltb i (start + length nodes)))) [
      | inl inside ↦ (All-get_elem? IsNode nodes (i - start) n are_nodes (rw inside at e)).0
      | inr outside ↦ whole l i n (rw outside at e)
    ]

-- A run that the tree may write: it fits the machine integers and leaves no hole.
pub record IsRun (look : ℕ → ℕ → Option Node) (level start : ℕ) (nodes : List Node) : Type 0 where
  pub level_fits : level < 2 ^ 32
  pub end_fits : start + length nodes < 2 ^ 64
  pub nonempty : 0 < length nodes
  pub no_hole : (i : ℕ) → i < start → look level i ≢ none
  pub are_nodes : All IsNode nodes

-- The arguments of `get` are of type u32 and u64.
abbrev pub AreWords : List ℕ → List ℕ → Type 0
AreWords levels indices = All (λ l. l < 2 ^ 32) levels × All (λ i. i < 2 ^ 64) indices

-- What the trait promises, by what each position reads. A `put` that fails changes nothing. A level
-- has room for `capacity` nodes, and one call of `get` asks for 256 positions at most.
pub record StoreLaws {S : Type 0} (st : Store S) : Type 1 where
  pub IsValid : S → Type 0
  pub look : S → ℕ → ℕ → Option Node
  pub capacity : ℕ
  pub get_ok :
      (s : S) (levels indices : List ℕ)
      → IsValid s
      → AreWords levels indices
      → length levels ≤ 256
      → length levels ≡ length indices
      → st.get s levels indices ≡ ok (look_each (look s) levels indices)
  pub get_mismatch :
      (s : S) (levels indices : List ℕ)
      → length levels ≢ length indices
      → st.get s levels indices ≡ err (length_mismatch (length levels) (length indices))
  -- What a `put` that fails shows: of a store whose `put` never fails, a type with no element.
  pub Refuses : Type 0
  pub put_ends :
      (s : S) (level start : ℕ) (nodes : List Node)
      → IsValid s
      → IsRun (look s) level start nodes
      → start + length nodes ≤ capacity
      → Ends
          (λ s' _.
            IsValid s'
            × ((l i : ℕ) → look s' l i ≡ write_run (look s) level start nodes l i)
            × (st.get_num_leaves s' ≡ (
                if level == 0
                then max (st.get_num_leaves s) (start + length nodes)
                else st.get_num_leaves s)))
          (λ s' _.
            IsValid s'
            × ((l i : ℕ) → look s' l i ≡ look s l i)
            × (st.get_num_leaves s' ≡ st.get_num_leaves s)
            × Refuses)
          (st.put level start nodes s)
