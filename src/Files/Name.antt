-- ===== src/Files/Name.antt =====
-- src/stores/file_store.rs: `level_file_name`, and that no two levels share a file.
use rs_merkle_tree.Base.{
  ◌≢◌, zero, refl, ap, inr, sym, inl, if◌then◌else◌, ◌∙◌, ltb, ◌/◌, Bool-cases, length, [], drop,
  suc, arith, ◌*◌, ◌-◌, ◌%◌, ◌≡◌, replicate, ◌≤◌, ◌++◌, ◌∷◌, ◌+◌, ℕ, List,
}

-- The decimal digits of a number; `fuel` rounds are enough for a number of at most `fuel`.
decimal : ℕ → ℕ → List ℕ
decimal zero n = (48 + n % 10) ∷ []
decimal (suc fuel) n =
    let higher = decimal fuel (n / 10) in
    if ltb n 10 then (48 + n) ∷ [] else higher ++ (48 + n % 10) ∷ []

-- `format!("level_{:03}", level)`
unfoldable pub level_file_name : ℕ → List ℕ
unfolding decimal
level_file_name level =
    let digits = decimal level level in
    b'l' ∷ b'e' ∷ b'v' ∷ b'e' ∷ b'l' ∷ b'_' ∷ (replicate (3 - length digits) b'0' ++ digits)

-- The number that a text of digits stands for, with what was read before it.
value : ℕ → List ℕ → ℕ
value acc [] = acc
value acc (d ∷ digits) = value (acc * 10 + (d - 48)) digits

value-append : (acc : ℕ) (xs ys : List ℕ) → value acc (xs ++ ys) ≡ value (value acc xs) ys
unfolding value
value-append acc [] ys = refl
value-append acc (x ∷ xs) ys = value-append (acc * 10 + (x - 48)) xs ys

value-decimal : (fuel n : ℕ) → n ≤ fuel → value 0 (decimal fuel n) ≡ n
unfolding value decimal
value-decimal zero n h = omega arith
value-decimal (suc fuel) n h = elim (Bool-cases (ltb n 10)) [
  | inl small ↦ rw small (omega arith)
  | inr large ↦
      rw
        (
          large,
          value-append 0 (decimal fuel (n / 10)) ((48 + n % 10) ∷ []),
          value-decimal fuel (n / 10) (ground arith),
        )
        (omega arith)
]

value-zeros : (n : ℕ) (digits : List ℕ) → value 0 (replicate n b'0' ++ digits) ≡ value 0 digits
unfolding value
value-zeros zero digits = refl
value-zeros (suc n) digits = value-zeros n digits

pub level_file_name-injective : (l k : ℕ) → level_file_name l ≡ level_file_name k → l ≡ k
unfolding level_file_name
level_file_name-injective l k same =
    let number : (n : ℕ) → value 0 (drop 6 (level_file_name n)) ≡ n =
      λ n. value-zeros (3 - length (decimal n n)) (decimal n n) ∙ value-decimal n n (omega arith) in
    sym (number l) ∙ ap (λ name. value 0 (drop 6 name)) same ∙ number k

-- Two levels have two file names.
pub level_file_name-ne : (l k : ℕ) → l ≢ k → level_file_name l ≢ level_file_name k
level_file_name-ne l k other same = other (level_file_name-injective l k same)
