-- ===== src/Base/Elements.antt =====
-- The entries of lists, by their index.
use rs_merkle_tree.Base.Lists.{length, get_elem?, set, take, drop, replicate}
use Prim.Native.Nat.{ℕ, zero, suc, ◌+◌, ◌-◌, ◌≤◌, ◌<◌}
use mathlib.Core.Path.{◌≡◌, refl, ap₂}
use mathlib.Core.List.{List, [], ◌∷◌, ◌++◌}
use mathlib.Core.Option.{none, some}
use mathlib.Core.Bool.{false, ◌&&◌}
use native.Mathlib.Omega.{arith}
use rs_merkle_tree.Base.Tests.{leb, ltb, if◌then◌else◌, ◌==◌}

module _ {ℓ} {A : Type ℓ} where
  pub get_elem?-lt : (xs : List A) (i : ℕ) → i < length xs → (x : A) × (get_elem? xs i ≡ some x)
  get_elem?-lt [] i h = absurd (omega arith)
  get_elem?-lt (x ∷ xs) zero h = (x, refl)
  get_elem?-lt (x ∷ xs) (suc i) h = get_elem?-lt xs i (omega arith)

  pub get_elem?-le : (xs : List A) (i : ℕ) → length xs ≤ i → get_elem? xs i ≡ none
  get_elem?-le [] i h = refl
  get_elem?-le (x ∷ xs) zero h = absurd (omega arith)
  get_elem?-le (x ∷ xs) (suc i) h = get_elem?-le xs i (omega arith)

  pub get_elem?-append :
      (xs ys : List A) (i : ℕ)
      → get_elem? (xs ++ ys) i
        ≡ (if ltb i (length xs) then get_elem? xs i else get_elem? ys (i - length xs))
  get_elem?-append [] ys i = ground arith
  get_elem?-append (x ∷ xs) ys zero = ground arith
  get_elem?-append (x ∷ xs) ys (suc i) = ground (arith, get_elem?-append xs ys i)

  pub get_elem?-append-right :
      (xs ys : List A) (i : ℕ) → get_elem? (xs ++ ys) (length xs + i) ≡ get_elem? ys i
  get_elem?-append-right [] ys i = let none_before : 0 + i ≡ i = omega arith in rw none_before
  get_elem?-append-right (x ∷ xs) ys i =
      let next : suc (length xs) + i ≡ suc (length xs + i) = omega arith in
      rw next (get_elem?-append-right xs ys i)

  pub get_elem?-set :
      (xs : List A) (i j : ℕ) (v : A)
      → i < length xs
      → get_elem? (set xs i v) j ≡ (if i == j then some v else get_elem? xs j)
  get_elem?-set [] i j v h = absurd (omega arith)
  get_elem?-set (x ∷ xs) zero zero v h = refl
  get_elem?-set (x ∷ xs) (suc i) (suc j) v h = ground (arith, get_elem?-set xs i j v)
  get_elem?-set (x ∷ xs) i j v h = ground arith

module _ {ℓ} {A : Type ℓ} where
  pub get_elem?-take :
      (n : ℕ) (xs : List A) (i : ℕ)
      → get_elem? (take n xs) i ≡ (if ltb i n then get_elem? xs i else none)
  get_elem?-take zero xs i = ground arith
  get_elem?-take (suc n) [] i = ground arith
  get_elem?-take (suc n) (x ∷ xs) zero = ground arith
  get_elem?-take (suc n) (x ∷ xs) (suc i) = ground (arith, get_elem?-take n xs i)

  pub get_elem?-drop :
      (n : ℕ) (xs : List A) (i : ℕ) → get_elem? (drop n xs) i ≡ get_elem? xs (n + i)
  get_elem?-drop zero xs i = let sum : 0 + i ≡ i = omega arith in rw sum
  get_elem?-drop (suc n) [] i = refl
  get_elem?-drop (suc n) (x ∷ xs) i =
      let sum : suc n + i ≡ suc (n + i) = omega arith in rw sum (get_elem?-drop n xs i)

  pub get_elem?-replicate :
      (n : ℕ) (a : A) (i : ℕ) → get_elem? (replicate n a) i ≡ (if ltb i n then some a else none)
  get_elem?-replicate zero a i = ground arith
  get_elem?-replicate (suc n) a zero = ground arith
  get_elem?-replicate (suc n) a (suc i) = ground (arith, get_elem?-replicate n a i)

module _ {A : Type 0} where
  -- What a list reads after a run has been put over it.
  pub get_elem?-splice :
      (stored : List A) (start : ℕ) (nodes : List A) (i : ℕ)
      → start ≤ length stored
      → get_elem? (take start stored ++ (nodes ++ drop (start + length nodes) stored)) i ≡ (
          if leb start i && ltb i (start + length nodes)
          then get_elem? nodes (i - start)
          else get_elem? stored i)
  get_elem?-splice stored zero nodes i h =
      let sum : 0 + length nodes ≡ length nodes = omega arith in
      let back : ltb i (length nodes) ≡ false → length nodes + (i - length nodes) ≡ i =
        ground arith in
      rw sum (
        ground (
          arith,
          get_elem?-append nodes (drop (length nodes) stored) i,
          get_elem?-drop (length nodes) stored (i - length nodes),
          back,
        ))
  get_elem?-splice [] (suc start) nodes i h = absurd (omega arith)
  get_elem?-splice (x ∷ stored) (suc start) nodes zero h = ground arith
  get_elem?-splice (x ∷ stored) (suc start) nodes (suc i) h =
      let sum : suc start + length nodes ≡ suc (start + length nodes) = omega arith in
      let less : suc i - suc start ≡ i - start = omega arith in
      rw (sum, less) (ground (arith, get_elem?-splice stored start nodes i))

-- Lists with the same entries are the same.
pub get_elem?-ext {ℓ} :
    {A : Type ℓ} (xs ys : List A) → ((i : ℕ) → get_elem? xs i ≡ get_elem? ys i) → xs ≡ ys
get_elem?-ext [] [] h = refl
get_elem?-ext [] (y ∷ ys) h = cc (h 0)
get_elem?-ext (x ∷ xs) [] h = cc (h 0)
get_elem?-ext (x ∷ xs) (y ∷ ys) h = ap₂ ◌∷◌ (cc (h 0)) (get_elem?-ext xs ys (λ i. h (suc i)))
