-- ===== src/Hasher/Chunks.antt =====
-- `pairs.chunks(n).zip(out.chunks_mut(n))`, and rayon's `par_chunks`: the chunks of `out` are
-- disjoint and each is written from its own chunk of `pairs` alone. They are taken in order here,
-- and in any order in Tree/Level/Parallel.
use rs_merkle_tree.Base.{
  ℕ, zero, suc, ◌≤◌, ◌<◌, ◌≡◌, refl, ap, List, [], ◌∷◌, ◌++◌, map, arith, length, take, drop,
  flatten, length-take, length-drop, map-append, take-append-drop, sym, ◌∙◌, All, All-take,
  All-drop,
}
use rs_merkle_tree.Run.{Run, ok, ◌>>=◌}

module _ {ℓ} {A : Type ℓ} where
  -- The first argument counts the chunks that are left at most.
  chunks_up_to : ℕ → ℕ → List A → List (List A)
  chunks_up_to zero n xs = []
  chunks_up_to (suc k) n [] = []
  chunks_up_to (suc k) n (x ∷ xs) = take n (x ∷ xs) ∷ chunks_up_to k n (drop n (x ∷ xs))

  chunks_up_to-nil : (k n : ℕ) → chunks_up_to k n [] ≡ []
  unfolding chunks_up_to
  chunks_up_to-nil zero n = refl
  chunks_up_to-nil (suc k) n = refl

  flatten-chunks_up_to :
      (k n : ℕ) (xs : List A) → 0 < n → length xs ≤ k → flatten (chunks_up_to k n xs) ≡ xs
  unfolding chunks_up_to
  flatten-chunks_up_to zero n [] pos h = refl
  flatten-chunks_up_to zero n (x ∷ xs) pos h = absurd (omega arith)
  flatten-chunks_up_to (suc k) n [] pos h = refl
  flatten-chunks_up_to (suc k) n (x ∷ xs) pos h =
      rw (flatten-chunks_up_to k n (drop n (x ∷ xs)) pos (omega (arith, length-drop n (x ∷ xs))))
        (take-append-drop n (x ∷ xs))

  All-chunks_up_to {κ} :
      (P : A → Type κ) (k n : ℕ) (xs : List A) → All P xs → All (All P) (chunks_up_to k n xs)
  unfolding chunks_up_to
  All-chunks_up_to P zero n xs each = tt
  All-chunks_up_to P (suc k) n [] each = tt
  All-chunks_up_to P (suc k) n (x ∷ xs) each = (
    All-take P n (x ∷ xs) each,
    All-chunks_up_to P k n (drop n (x ∷ xs)) (All-drop P n (x ∷ xs) each),
  )

  unfoldable pub chunks : ℕ → List A → List (List A)
  unfolding chunks_up_to
  chunks n xs = chunks_up_to (length xs) n xs

  -- The chunks of a list, in order, are the list.
  pub flatten-chunks : (n : ℕ) (xs : List A) → 0 < n → flatten (chunks n xs) ≡ xs
  unfolding chunks
  flatten-chunks n xs pos = flatten-chunks_up_to (length xs) n xs pos (omega arith)

  pub All-chunks {κ} : (P : A → Type κ) (n : ℕ) (xs : List A) → All P xs → All (All P) (chunks n xs)
  unfolding chunks
  All-chunks P n xs each = All-chunks_up_to P (length xs) n xs each

module _ {A B : Type 0} where
  -- Writes each chunk of `out` from the chunk of `xs` beside it.
  for_each_zip : (List A → List B → Run (List B)) → List (List A) → List (List B) → Run (List B)
  for_each_zip f (x ∷ xs) (o ∷ out) = do
    written ← f x o
    rest ← for_each_zip f xs out
    ok (written ++ rest)
  for_each_zip f xs out = ok (flatten out)

  unfoldable pub for_each_chunk :
      ℕ → (List A → List B → Run (List B)) → List A → List B → Run (List B)
  unfolding for_each_zip chunks
  for_each_chunk n f xs out = for_each_zip f (chunks n xs) (chunks n out)

  module _ (P : A → Type 0) (n : ℕ) (pos : 0 < n) (f : List A → List B → Run (List B))
      (g : A → B) where
    for_each_zip-map_each :
        (k m : ℕ) (xs : List A) (out : List B)
        → ((x : List A) (o : List B)
            → length x ≡ length o
            → length x ≤ n
            → All P x
            → f x o ≡ ok (map g x))
        → length xs ≤ k
        → length xs ≤ m
        → length xs ≡ length out
        → All P xs
        → for_each_zip f (chunks_up_to k n xs) (chunks_up_to m n out) ≡ ok (map g xs)
    unfolding for_each_zip chunks_up_to
    for_each_zip-map_each k m [] [] h a b e each = rw (chunks_up_to-nil k n, chunks_up_to-nil m n)
    for_each_zip-map_each k m [] (o ∷ out) h a b e each = absurd (omega arith)
    for_each_zip-map_each k m (x ∷ xs) [] h a b e each = absurd (omega arith)
    for_each_zip-map_each zero m (x ∷ xs) (o ∷ out) h a b e each = absurd (omega arith)
    for_each_zip-map_each (suc k) zero (x ∷ xs) (o ∷ out) h a b e each = absurd (omega arith)
    for_each_zip-map_each (suc k) (suc m) (x ∷ xs) (o ∷ out) h a b e each =
        let size : length (take n (x ∷ xs)) ≡ length (take n (o ∷ out)) =
          omega (arith, length-take n (x ∷ xs), length-take n (o ∷ out)) in
        let short : length (take n (x ∷ xs)) ≤ n = omega (arith, length-take n (x ∷ xs)) in
        let rest =
          for_each_zip-map_each k m (drop n (x ∷ xs)) (drop n (o ∷ out)) h
            (omega (arith, length-drop n (x ∷ xs))) (omega (arith, length-drop n (x ∷ xs)))
            (omega (arith, length-drop n (x ∷ xs), length-drop n (o ∷ out)))
            (All-drop P n (x ∷ xs) each) in
        rw (h (take n (x ∷ xs)) (take n (o ∷ out)) size short (All-take P n (x ∷ xs) each), rest)
          (ap ok (
            sym (map-append g (take n (x ∷ xs)) (drop n (x ∷ xs)))
            ∙ ap (map g) (take-append-drop n (x ∷ xs))))

    -- Where `f` maps `g` over each chunk of elements that have a property, the whole run of them is
    -- mapped.
    pub for_each_chunk-map_each :
        (xs : List A) (out : List B)
        → ((x : List A) (o : List B)
            → length x ≡ length o
            → length x ≤ n
            → All P x
            → f x o ≡ ok (map g x))
        → length xs ≡ length out
        → All P xs
        → for_each_chunk n f xs out ≡ ok (map g xs)
    unfolding for_each_chunk
    for_each_chunk-map_each xs out h e each =
        for_each_zip-map_each (length xs) (length out) xs out h (omega arith) (omega arith) e each
