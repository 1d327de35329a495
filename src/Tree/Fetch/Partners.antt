-- ===== src/Tree/Fetch/Partners.antt =====
-- The left partners that `add_leaves` reads are the nodes left of each odd run start.
use native.Mathlib.Nat.{div-le_self}
use native.Mathlib.Decide.{ℕ_discrete}
use rs_merkle_tree.Base.{
  length-replicate, lt→ltb, get_elem?-set, ◌≢◌, replicate, length-set, false, some, ℕ, zero, suc,
  ◌+◌, ◌-◌, ◌/◌, ◌%◌, ◌^◌, ◌≤◌, ◌<◌, ◌≡◌, List, [], ◌∷◌, Option, length, get_elem?, set, arith, ap,
  ◌∙◌, sym, refl, Bool-cases, inl, inr, ◌==◌, bit_and,
}
use rs_merkle_tree.Base.Bits.{bit_and-pow}
use rs_merkle_tree.Run.{ok, unwrap_or}
use rs_merkle_tree.Node.{zero_node, Node}
use rs_merkle_tree.Store.{look_each, AreWords}
use rs_merkle_tree.Tree.{Zeros, zeros_index, shr64, as_u32}
use rs_merkle_tree.Tree.Fetch.{fetch_list, fill_partners}
use rs_merkle_tree.Tree.Spec.{zero_at, node_at, full, stored}
use rs_merkle_tree.Tree.Spec.Facts.{full-shift, unwrap-stored}

pub shr64-full : (n level : ℕ) → level < 64 → shr64 n level ≡ full level n
shr64-full n level h = ap (λ k. n / 2 ^ k) (omega arith) ∙ sym (full-shift level n)

pub as_u32-small : (n : ℕ) → n < 64 → as_u32 n ≡ n
as_u32-small n h = omega arith

pub odd_test : (n : ℕ) → (bit_and n 1 == 1) ≡ (n % 2 == 1)
odd_test n = ap (λ k. k == 1) (bit_and-pow n 0 ∙ omega arith)

module _ (hash : Node → Node → Node) (xs : List Node) where
  -- The node left of the run that begins where the full nodes of level `l` end.
  abbrev pub left_of : ℕ → Node
  left_of l = node_at hash xs l (full l (length xs) - 1)

  -- A list of left partners, from `level` on, that is right wherever one is needed.
  abbrev pub ArePartners : ℕ → List Node → Type 0
  ArePartners level [] = Unit
  ArePartners level (p ∷ ps) =
      (full level (length xs) % 2 ≡ 1 → p ≡ left_of level) × ArePartners (suc level) ps

  get_elem?-ArePartners :
      (level : ℕ) (ps : List Node)
      → ((l : ℕ)
          → level ≤ l
          → l < level + length ps
          → full l (length xs) % 2 ≡ 1
          → get_elem? ps (l - level) ≡ some (left_of l))
      → ArePartners level ps
  get_elem?-ArePartners level [] h = tt
  get_elem?-ArePartners level (p ∷ ps) h = (
    (λ odd.
        let here : level - level ≡ 0 = omega arith in
        let found = rw here at (h level (omega arith) (omega arith) odd) in cc),
    get_elem?-ArePartners (suc level) ps (λ l a b odd.
        let next : l - level ≡ suc (l - suc level) = omega arith in
        rw next at (h l (omega arith) (omega arith) odd)),
  )

  module _ (depth : ℕ) (zeros : Zeros) (look : ℕ → ℕ → Option Node) (small : depth < 64)
      (zeros_ok : (l : ℕ) → l ≤ depth → zeros_index depth zeros l ≡ ok (zero_at hash l))
      (holds : (l i : ℕ) → l ≤ depth → look l i ≡ stored hash xs l i) where
    -- The fetched nodes, from `level` on.
    abbrev fetched : ℕ → ℕ → List (Option Node)
    fetched rounds level =
        let (levels, indices) = fetch_list rounds level (length xs) in look_each look levels indices

    record Filled (level rounds : ℕ) (before after : List Node) : Type 0 where
      run :
          fill_partners depth zeros
            (fetch_list rounds level (length xs)).0
            (fetched rounds level)
            before
          ≡ ok after
      size : length after ≡ depth
      found :
          (l : ℕ)
          → level ≤ l
          → l < depth
          → full l (length xs) % 2 ≡ 1
          → get_elem? after l ≡ some (left_of l)
      kept : (l : ℕ) → get_elem? before l ≡ some (left_of l) → get_elem? after l ≡ some (left_of l)

    -- The node that `unwrap_or` gives for a left partner.
    read :
        (level : ℕ)
        → level ≤ depth
        → unwrap_or (look level (full level (length xs) - 1)) (zero_at hash level) ≡ left_of level
    read level h =
        ap (λ node. unwrap_or node (zero_at hash level)) (holds level _ h)
        ∙ unwrap-stored hash xs level (full level (length xs) - 1)

    not_odd :
        (level : ℕ)
        → (bit_and (shr64 (length xs) level) 1 == 1) ≡ false
        → level < 64
        → full level (length xs) % 2 ≢ 1
    not_odd level h small' =
        let test = odd_test (shr64 (length xs) level) in
        ground (arith, shr64-full (length xs) level small')

    fill_fetched :
        (rounds level : ℕ) (before : List Node)
        → level + rounds ≡ depth
        → length before ≡ depth
        → (after : List Node) × Filled level rounds before after
    unfolding fetch_list fill_partners
    fill_fetched zero level before e size = (
      before,
      record {
        run = refl;
        size = size;
        found = λ l a b odd. absurd (omega arith);
        kept = λ l h. h;
      },
    )
    fill_fetched (suc rounds) level before e size =
        elim (Bool-cases (bit_and (shr64 (length xs) level) 1 == 1)) [
          | inl odd ↦
              let partners = set before level (left_of level) in
              let (after, f) =
                fill_fetched rounds (suc level) partners (omega arith)
                  (length-set before level _ ∙ size) in
              let inside : level < length before = omega arith in
              let written = get_elem?-set before level in
              (
                after,
                record {
                  run =
                      rw
                        (
                          odd,
                          as_u32-small level (omega arith),
                          shr64-full (length xs) level (omega arith),
                          zeros_ok level (omega arith),
                          read level (omega arith),
                          lt→ltb level (length before) inside,
                        )
                        f.run;
                  size = f.size;
                  found = λ l a b o. elim (ℕ_discrete l level) [
                    | yes same ↦
                        f.kept l (ground (arith, written l (left_of level) inside, ap left_of same))
                    | no other ↦ f.found l (omega arith) b o
                  ];
                  kept = λ l h. f.kept l (elim (ℕ_discrete l level) [
                    | yes same ↦ ground (arith, written l (left_of level) inside, ap left_of same)
                    | no other ↦ ground (arith, written l (left_of level) inside)
                  ]);
                },
              )
          | inr even ↦
              let (after, f) = fill_fetched rounds (suc level) before (omega arith) size in
              (
                after,
                record {
                  run = rw even f.run;
                  size = f.size;
                  found = λ l a b o. elim (ℕ_discrete l level) [
                    | yes same ↦ absurd (not_odd level even (omega arith) (rw same at o))
                    | no other ↦ f.found l (omega arith) b o
                  ];
                  kept = f.kept;
                },
              )
        ]

    -- With the array of `DEPTH` zeros before, the array afterwards holds every partner needed.
    pub fetch_partners :
        (after : List Node) × (fill_partners depth zeros
            (fetch_list depth 0 (length xs)).0
            (fetched depth 0)
            (replicate depth zero_node)
          ≡ ok after)
        × (length after ≡ depth)
        × ArePartners 0 after
    fetch_partners =
        let (after, f) =
          fill_fetched depth 0 (replicate depth zero_node) (omega arith)
            (length-replicate depth zero_node) in
        (
          after,
          f.run,
          f.size,
          get_elem?-ArePartners 0 after (λ l a b odd.
              let same : l - 0 ≡ l = omega arith in
              rw same (f.found l a (omega (arith, f.size)) odd)),
        )

pub length-fetch_list :
    (rounds level n : ℕ)
    → length (fetch_list rounds level n).0 ≡ length (fetch_list rounds level n).1
unfolding fetch_list
length-fetch_list zero level n = refl
length-fetch_list (suc rounds) level n = ground (arith, length-fetch_list rounds (suc level) n)

pub fetch_list-AreWords :
    (rounds level n : ℕ)
    → n < 2 ^ 64
    → AreWords (fetch_list rounds level n).0 (fetch_list rounds level n).1
unfolding fetch_list
fetch_list-AreWords zero level n h = (tt, tt)
fetch_list-AreWords (suc rounds) level n h =
    let rest = fetch_list-AreWords rounds (suc level) n h in
    let shifted : shr64 n level ≤ n = div-le_self n (2 ^ (level % 64)) in
    elim (Bool-cases (bit_and (shr64 n level) 1 == 1)) [
      | inl odd ↦ rw odd ((omega arith, rest.0), (omega arith, rest.1))
      | inr even ↦ rw even rest
    ]

pub fetch_list-le : (rounds level n : ℕ) → length (fetch_list rounds level n).0 ≤ rounds
unfolding fetch_list
fetch_list-le zero level n = omega arith
fetch_list-le (suc rounds) level n = ground (arith, fetch_list-le rounds (suc level) n)
