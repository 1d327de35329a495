-- ===== src/Base/Tabulate.antt =====
-- Lists of the values of a function.
use Prim.Native.Nat.{ℕ, zero, suc, ◌+◌, ◌≤◌, ◌<◌}
use mathlib.Core.Path.{◌≡◌, refl, ap, ap₂, ◌∙◌}
use mathlib.Core.List.{List, [], ◌∷◌, ◌++◌}
use mathlib.Core.Option.{some}
use native.Mathlib.Omega.{arith}
use rs_merkle_tree.Base.Lists.{length, get_elem?}

-- The values of `f` at `n` indices from `start` on.
module _ {ℓ} {A : Type ℓ} where
  abbrev pub tabulate : (ℕ → A) → ℕ → ℕ → List A
  tabulate f start zero = []
  tabulate f start (suc n) = f start ∷ tabulate f (suc start) n

  pub length-tabulate : (f : ℕ → A) (start n : ℕ) → length (tabulate f start n) ≡ n
  length-tabulate f start zero = refl
  length-tabulate f start (suc n) = ap suc (length-tabulate f (suc start) n)

  pub get_elem?-tabulate :
      (f : ℕ → A) (start n i : ℕ) → i < n → get_elem? (tabulate f start n) i ≡ some (f (start + i))
  get_elem?-tabulate f start zero i h = absurd (omega arith)
  get_elem?-tabulate f start (suc n) zero h = ap (λ k. some (f k)) (omega arith)
  get_elem?-tabulate f start (suc n) (suc i) h =
      get_elem?-tabulate f (suc start) n i (omega arith) ∙ ap (λ k. some (f k)) (omega arith)

  pub tabulate-append :
      (f : ℕ → A) (start n m : ℕ)
      → tabulate f start n ++ tabulate f (start + n) m ≡ tabulate f start (n + m)
  tabulate-append f start zero m = ap₂ (tabulate f) (omega arith) (omega arith)
  tabulate-append f start (suc n) m =
      let total : suc n + m ≡ suc (n + m) = omega arith in
      let next : start + suc n ≡ suc start + n = omega arith in
      rw (total, next) (ap (◌∷◌ (f start)) (tabulate-append f (suc start) n m))

  pub tabulate-ext :
      (f g : ℕ → A) (start n : ℕ)
      → ((i : ℕ) → start ≤ i → i < start + n → f i ≡ g i)
      → tabulate f start n ≡ tabulate g start n
  tabulate-ext f g start zero h = refl
  tabulate-ext f g start (suc n) h =
      ap₂ ◌∷◌ (h start (omega arith) (omega arith))
        (tabulate-ext f g (suc start) n (λ i p q. h i (omega arith) (omega arith)))

  pub eq-tabulate :
      (xs : List A) (f : ℕ → A) (start : ℕ)
      → ((i : ℕ) → i < length xs → get_elem? xs i ≡ some (f (start + i)))
      → xs ≡ tabulate f start (length xs)
  eq-tabulate [] f start h = refl
  eq-tabulate (x ∷ xs) f start h =
      let here : start + 0 ≡ start = omega arith in
      let first = rw here at (h 0 (omega arith)) in
      let rest = eq-tabulate xs f (suc start) (λ i lt.
        let next : start + suc i ≡ suc start + i = omega arith in
        rw next at (h (suc i) (omega arith))) in
      ap₂ ◌∷◌ (cc) rest
