-- ===== src/Tree/Level/Parallel.antt =====
-- src/tree.rs: the parallel branch of the body of a level, `par_chunks(…).zip(…).for_each(…)`. The
-- threads share the chunks out between them, so the chunks are written in some order.
use rs_merkle_tree.Tree.Level.Pairs.{hash_body-map}
use rs_merkle_tree.Tree.Level.{hash_body}
use rs_merkle_tree.Tree.{min_parallel_hashes}
use rs_merkle_tree.Hasher.{Hasher, IsHasher, IsPair, hash_pair}
use rs_merkle_tree.Node.{Node}
use rs_merkle_tree.Run.{◌>>=◌, Run, ok}
use rs_merkle_tree.Base.{
  map-take, map-drop, sym, get_elem?-le, get_elem?-ext, ◌≤◌, lt→ltb, ◌∙◌, inl, inr, ◌&&◌, none, ltb,
  leb, Bool-cases, length-append, get_elem?-take, get_elem?-drop, get_elem?-splice, ℕ, ◌+◌, ◌-◌,
  ◌*◌, ◌/◌, ◌<◌, min, ◌≡◌, refl, ap, Bool, true, false, ◌||◌, List, [], ◌∷◌, ◌++◌, map, arith, ◌==◌,
  if◌then◌else◌, length, get_elem?, take, drop, All, length-take, length-drop, All-take, All-drop,
  length-map,
}

-- One chunk, by its number: it is hashed into its own part of `out`.
unfoldable pub hash_chunk : Hasher → List (Node × Node) → ℕ → List Node → Run (List Node)
hash_chunk hasher pairs k out = do
  let at = k * min_parallel_hashes
  written ←
      hasher.hash_pairs (take min_parallel_hashes (drop at pairs))
        (take min_parallel_hashes (drop at out))
  ok (take at out ++ (written ++ drop (at + length written) out))

-- The chunks in the order of the schedule.
unfoldable pub hash_chunks : Hasher → List (Node × Node) → List ℕ → List Node → Run (List Node)
unfolding hash_chunk
hash_chunks hasher pairs [] out = ok out
hash_chunks hasher pairs (k ∷ schedule) out = do
  out ← hash_chunk hasher pairs k out
  hash_chunks hasher pairs schedule out

-- Whether a number is in a list.
abbrev pub elem : ℕ → List ℕ → Bool
elem k [] = false
elem k (j ∷ js) = k == j || elem k js

-- The numbers of chunks of `size` pairs, and each of them.
pub record IsSchedule (size : ℕ) (schedule : List ℕ) : Type 0 where
  pub in_range : All (λ k. k * min_parallel_hashes < size) schedule
  pub every_chunk : (k : ℕ) → k * min_parallel_hashes < size → elem k schedule ≡ true

-- Where a position is in a chunk of `m` places at most.
chunk-inside :
    (k j m : ℕ)
    → (leb (k * 64) j && ltb j (k * 64 + m)) ≡ true
    → m ≤ 64
    → ((j / 64 == k) ≡ true) × (ltb (j - k * 64) 64 ≡ true) × (k * 64 + (j - k * 64) ≡ j)
chunk-inside k j m here most =
    let above : k * 64 ≤ j = ground arith in
    let below : j < k * 64 + m = ground arith in
    let number : j / 64 ≡ k = omega arith in
    (ground (number, arith), lt→ltb (j - k * 64) 64 (omega arith), omega arith)

chunk-outside :
    (k j size : ℕ)
    → (leb (k * 64) j && ltb j (k * 64 + min 64 (size - k * 64))) ≡ false
    → (j / 64 == k) ≡ true
    → size ≤ j
chunk-outside k j size elsewhere same =
    let number : j / 64 ≡ k = ground arith in
    let above : k * 64 ≤ j = omega arith in
    let past : k * 64 + min 64 (size - k * 64) ≤ j = ground arith in omega arith

module _ (hasher : Hasher) (is_hasher : IsHasher hasher) (pairs : List (Node × Node))
    (are_pairs : All IsPair pairs) where
  abbrev parents : List Node
  parents = map (hash_pair hasher.hash) pairs

  -- What a chunk is hashed to.
  abbrev written : ℕ → List Node
  written k = map (hash_pair hasher.hash) (take 64 (drop (k * 64) pairs))

  length-written : (k : ℕ) → length (written k) ≡ min 64 (length pairs - k * 64)
  length-written k = omega (
    arith,
    length-map (hash_pair hasher.hash) (take 64 (drop (k * 64) pairs)),
    length-take 64 (drop (k * 64) pairs),
    length-drop (k * 64) pairs,
  )

  written-reads :
      (k i : ℕ)
      → get_elem? (written k) i ≡ (if ltb i 64 then get_elem? parents (k * 64 + i) else none)
  written-reads k i =
      ap (λ xs. get_elem? xs i)
        (map-take (hash_pair hasher.hash) 64 (drop (k * 64) pairs)
          ∙ ap (take 64) (map-drop (hash_pair hasher.hash) (k * 64) pairs))
      ∙ get_elem?-take 64 (drop (k * 64) parents) i
      ∙ ap (λ o. if ltb i 64 then o else none) (get_elem?-drop (k * 64) parents i)

  abbrev put_back : ℕ → List Node → List Node
  put_back k out = take (k * 64) out ++ (written k ++ drop (k * 64 + length (written k)) out)

  put_back-reads :
      (k : ℕ) (out : List Node)
      → length pairs ≡ length out
      → k * 64 < length pairs
      → (j : ℕ)
      → get_elem? (put_back k out) j
        ≡ (if j / 64 == k then get_elem? parents j else get_elem? out j)
  put_back-reads k out same inside j =
      get_elem?-splice out (k * 64) (written k) j (omega (arith, same))
      ∙ elim (Bool-cases (leb (k * 64) j && ltb j (k * 64 + length (written k)))) [
        | inl here ↦
            let (number, low, back) =
              chunk-inside k j (length (written k)) here (omega (arith, length-written k)) in
            rw (here, written-reads k (j - k * 64), low, back, number)
        | inr elsewhere ↦ elim (Bool-cases (j / 64 == k)) [
          | inl number ↦
              let past : length pairs ≤ j =
                chunk-outside k j (length pairs) (rw (length-written k) at elsewhere) number in
              rw (
                elsewhere,
                number,
                get_elem?-le parents j (omega (arith, length-map (hash_pair hasher.hash) pairs)),
                get_elem?-le out j (omega (arith, same)),
              )
          | inr other ↦ rw (elsewhere, other)
        ]
      ]

  -- A chunk that is written reads as the parents, and what is outside of it as before.
  hash_chunk-reads :
      (k : ℕ) (out : List Node)
      → length pairs ≡ length out
      → k * min_parallel_hashes < length pairs
      → (hash_chunk hasher pairs k out ≡ ok (put_back k out))
        × (length (put_back k out) ≡ length out)
  unfolding hash_chunk
  hash_chunk-reads k out same inside =
      let at = k * 64 in
      let chunk = take 64 (drop at pairs) in
      let old = take 64 (drop at out) in
      let run : hasher.hash_pairs chunk old ≡ ok (written k) =
        is_hasher.pairs_ok chunk old
          (omega (
            arith,
            same,
            length-take 64 (drop at pairs),
            length-drop at pairs,
            length-take 64 (drop at out),
            length-drop at out,
          ))
          (All-take IsPair 64 (drop at pairs) (All-drop IsPair at pairs are_pairs)) in
      (
        rw run,
        omega (
          arith,
          length-append (take at out) (written k ++ drop (at + length (written k)) out),
          length-append (written k) (drop (at + length (written k)) out),
          length-take at out,
          length-drop (at + length (written k)) out,
          length-written k,
          same,
        ),
      )

  -- After the chunks of a schedule the positions of these chunks read as the parents.
  hash_chunks-reads :
      (schedule : List ℕ) (out : List Node)
      → length pairs ≡ length out
      → All (λ k. k * min_parallel_hashes < length pairs) schedule
      → (out' : List Node) × (hash_chunks hasher pairs schedule out ≡ ok out')
        × ((j : ℕ)
            → get_elem? out' j ≡ (
                if elem (j / min_parallel_hashes) schedule
                then get_elem? parents j
                else get_elem? out j))
  unfolding hash_chunks
  hash_chunks-reads [] out same inside = (out, refl, λ j. refl)
  hash_chunks-reads (k ∷ schedule) out same (first, inside) =
      let (run, size) = hash_chunk-reads k out same first in
      let (out', rest, reads) =
        hash_chunks-reads schedule (put_back k out) (same ∙ sym size) inside in
      (
        out',
        rw (run, rest),
        λ j. reads j ∙ elim (Bool-cases (elem (j / 64) schedule)) [
          | inl later ↦ ground (arith, later)
          | inr not_later ↦
              rw not_later (put_back-reads k out same first j ∙ ground (arith, not_later))
        ],
      )

  -- With a lawful hasher, pairs of nodes, and a slice of as many places: in whatever order the
  -- chunks of 64 pairs are hashed, each once or more, none of them panics, and the slice ends as
  -- `hash_body` leaves it, which takes them in order: every place holds the hash of the pair beside
  -- it.
  pub hash_chunks-hash_body :
      (schedule : List ℕ) (out : List Node)
      → length pairs ≡ length out
      → IsSchedule (length pairs) schedule
      → (hash_chunks hasher pairs schedule out ≡ hash_body hasher pairs out)
        × (hash_body hasher pairs out ≡ ok parents)
  hash_chunks-hash_body schedule out same order =
      let (out', run, reads) = hash_chunks-reads schedule out same order.in_range in
      let body = hash_body-map hasher pairs out is_hasher same are_pairs in
      let all : out' ≡ parents = get_elem?-ext out' parents λ j.
        reads j ∙ elim (Bool-cases (ltb j (length pairs))) [
          | inl inside ↦ let named = order.every_chunk (j / 64) (ground arith) in rw named
          | inr past ↦
              rw
                (
                  get_elem?-le parents j (ground (arith, length-map (hash_pair hasher.hash) pairs)),
                  get_elem?-le out j (ground (arith, same)),
                )
                (ground arith)
        ] in
      (run ∙ ap ok all ∙ sym body, body)
