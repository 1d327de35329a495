-- ===== src/Run.antt =====
-- How a call ends: src/errors.rs, panics, and methods that change the object they are called on.
pub mod Method
use rs_merkle_tree.Base.{
  ℕ, ◌≤◌, ◌<◌, ◌≡◌, refl, Bool, true, false, Option, none, some, List, [], ◌∷◌, ◌++◌, arith, ltb,
  length, get_elem?, take, drop, set, if◌then◌else◌,
}

-- The text of a `StoreError`, which the source formats from these values.
pub data Message : Type 0 where
  empty_root_fetch : Message
  past_prefix : ℕ → ℕ → ℕ → Message
  invalid_node_length : Message
  io : ℕ → Message
  database : ℕ → Message
  too_many_levels : ℕ → Message

pub data MerkleError : Type 0 where
  store_error : Message → MerkleError
  leaf_index_out_of_bounds : ℕ → ℕ → MerkleError
  tree_full : ℕ → ℕ → MerkleError
  length_mismatch : ℕ → ℕ → MerkleError

-- A value, a returned error, or a panic.
pub data Run {ℓ} (A : Type ℓ) : Type ℓ where
  ok : A → Run A
  err : MerkleError → Run A
  panic : Run A

infixl 5 ◌>>=◌ ◌>>◌
abbrev pub ◌>>=◌ {ℓ κ} : {A : Type ℓ} {B : Type κ} → Run A → (A → Run B) → Run B
ok a >>= f = f a
err e >>= f = err e
panic >>= f = panic

abbrev pub ◌>>◌ {ℓ} : {B : Type ℓ} → Run (Unit {0}) → Run B → Run B
m >> k = m >>= λ _. k

-- `P` holds of the value, where there is one.
pub data IfOk {ℓ} {A : Type ℓ} (P : A → Type ℓ) : Run A → Type ℓ where
  if_ok : {a : A} → P a → IfOk P (ok a)
  if_err : {e : MerkleError} → IfOk P (err e)
  if_panic : IfOk P panic

pub IfOk-bind {ℓ κ} :
    {A : Type ℓ} {B : Type κ} {P : A → Type ℓ} {Q : B → Type κ} {r : Run A} {f : A → Run B}
    → IfOk P r
    → ((a : A) → P a → IfOk Q (f a))
    → IfOk Q (r >>= f)
IfOk-bind (if_ok p) k = k _ p
IfOk-bind if_err k = if_err
IfOk-bind if_panic k = if_panic

pub IfOk-itself {ℓ} : {A : Type ℓ} (r : Run A) → IfOk (λ a. r ≡ ok a) r
IfOk-itself (ok a) = if_ok refl
IfOk-itself (err e) = if_err
IfOk-itself panic = if_panic

pub IfOk-inv {ℓ} : {A : Type ℓ} {P : A → Type ℓ} {a : A} → IfOk P (ok a) → P a
IfOk-inv (if_ok p) = p

abbrev pub check : Bool → Run (Unit {0})
check true = ok tt
check false = panic

abbrev pub or_panic {ℓ} : {A : Type ℓ} → Option A → Run A
or_panic (some a) = ok a
or_panic none = panic

module _ {ℓ} {A : Type ℓ} where
  -- `xs[i]`
  abbrev pub index : List A → ℕ → Run A
  index xs i = or_panic (get_elem? xs i)

  -- `&xs[..n]`
  abbrev pub slice_to : List A → ℕ → Run (List A)
  slice_to xs n = if ltb (length xs) n then panic else ok (take n xs)

  -- `&xs[n..]`
  abbrev pub slice_from : List A → ℕ → Run (List A)
  slice_from xs n = if ltb (length xs) n then panic else ok (drop n xs)

  -- `xs[i] = v`
  abbrev pub assign : List A → ℕ → A → Run (List A)
  assign xs i v = if ltb i (length xs) then ok (set xs i v) else panic

  abbrev pub unwrap_or : Option A → A → A
  unwrap_or (some a) b = a
  unwrap_or none b = b
