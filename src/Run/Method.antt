-- ===== src/Run/Method.antt =====
-- A `&mut self` method: it leaves an object behind whether it returns, fails or panics.
use rs_merkle_tree.Base.{◌⊎◌, inl, inr, ◌≡◌, refl}
use rs_merkle_tree.Run.{Run, ok, err, panic, MerkleError}

abbrev pub Method : Type 0 → Type 0 → Type 0
Method S A = S → S × Run A

module _ {S : Type 0} where
  abbrev pub and_then : {A B : Type 0} → S × Run A → (A → Method S B) → S × Run B
  and_then (s, ok a) f = f a s
  and_then (s, err e) f = (s, err e)
  and_then (s, panic) f = (s, panic)

  -- `>>=` under a name, for files that use the one of `Run`.
  abbrev pub bind : {A B : Type 0} → Method S A → (A → Method S B) → Method S B
  bind m f s = and_then (m s) f

  infixl 5 ◌>>=◌ ◌>>◌
  abbrev pub ◌>>=◌ : {A B : Type 0} → Method S A → (A → Method S B) → Method S B
  ◌>>=◌ m f s = and_then (m s) f

  abbrev pub ◌>>◌ : {B : Type 0} → Method S (Unit {0}) → Method S B → Method S B
  m >> k = m >>= λ _. k

  abbrev pub return : {A : Type 0} → A → Method S A
  return a s = (s, ok a)

  -- A computation that does not touch the object.
  abbrev pub lift : {A : Type 0} → Run A → Method S A
  lift r s = (s, r)

  abbrev pub fail : {A : Type 0} → MerkleError → Method S A
  fail e s = (s, err e)

  abbrev pub gets : {A : Type 0} → (S → A) → Method S A
  gets f s = (s, ok (f s))

  abbrev pub modify : (S → S) → Method S (Unit {0})
  modify f s = (f s, ok tt)

  -- The method returns normally, and `P` holds of the object it leaves and of the result.
  pub data Returns {A : Type 0} (P : S → A → Type 0) : S × Run A → Type 0 where
    returns : {s : S} {a : A} → P s a → Returns P (s, ok a)

  pub Returns-bind :
      {A B : Type 0} {P : S → A → Type 0} {Q : S → B → Type 0} {r : S × Run A} {f : A → Method S B}
      → Returns P r
      → ((s : S) (a : A) → P s a → Returns Q (f a s))
      → Returns Q (and_then r f)
  Returns-bind (returns p) k = k _ _ p

  pub Returns-map :
      {A : Type 0} {P Q : S → A → Type 0} {r : S × Run A}
      → Returns P r
      → ((s : S) (a : A) → P s a → Q s a)
      → Returns Q r
  Returns-map (returns p) k = returns (k _ _ p)

  pub Returns-inv :
      {A : Type 0} {P : S → A → Type 0} {r : S × Run A}
      → Returns P r
      → (s : S) × (a : A) × (r ≡ (s, ok a)) × P s a
  Returns-inv (returns p) = (_, _, refl, p)

  pub Returns-state :
      {A : Type 0} {P : S → A → Type 0} {r : S × Run A} → Returns P r → (a : A) × P r.0 a
  Returns-state (returns p) = (_, p)

  -- The method returns normally, and `P` holds, or it fails, and `Q` holds of the object and the
  -- error. It does not panic.
  pub data Ends {A : Type 0} (P : S → A → Type 0) (Q : S → MerkleError → Type 0)
      : S × Run A → Type 0 where
    succeeds : {s : S} {a : A} → P s a → Ends P Q (s, ok a)
    fails : {s : S} {e : MerkleError} → Q s e → Ends P Q (s, err e)

  pub Ends-bind :
      {A B : Type 0} {P : S → A → Type 0} {P' : S → B → Type 0} {Q : S → MerkleError → Type 0}
      {r : S × Run A} {f : A → Method S B}
      → Ends P Q r
      → ((s : S) (a : A) → P s a → Ends P' Q (f a s))
      → Ends P' Q (and_then r f)
  Ends-bind (succeeds p) k = k _ _ p
  Ends-bind (fails q) k = fails q

  pub Ends-map :
      {A : Type 0} {P P' : S → A → Type 0} {Q Q' : S → MerkleError → Type 0} {r : S × Run A}
      → Ends P Q r
      → ((s : S) (a : A) → P s a → P' s a)
      → ((s : S) (e : MerkleError) → Q s e → Q' s e)
      → Ends P' Q' r
  Ends-map (succeeds p) k j = succeeds (k _ _ p)
  Ends-map (fails q) k j = fails (j _ _ q)

  pub Returns-Ends :
      {A : Type 0} {P : S → A → Type 0} {Q : S → MerkleError → Type 0} {r : S × Run A}
      → Returns P r
      → Ends P Q r
  Returns-Ends (returns p) = succeeds p

  pub Ends-Returns :
      {A : Type 0} {P : S → A → Type 0} {Q : S → MerkleError → Type 0} {r : S × Run A}
      → Ends P Q r
      → ((s : S) (e : MerkleError) → ¬ Q s e)
      → Returns P r
  Ends-Returns (succeeds p) never = returns p
  Ends-Returns (fails q) never = absurd (never _ _ q)

  pub Ends-cases :
      {A : Type 0} {P : S → A → Type 0} {Q : S → MerkleError → Type 0} {r : S × Run A}
      → Ends P Q r
      → ((s : S) × (a : A) × (r ≡ (s, ok a)) × P s a)
        ⊎ ((s : S) × (e : MerkleError) × (r ≡ (s, err e)) × Q s e)
  Ends-cases (succeeds p) = inl (_, _, refl, p)
  Ends-cases (fails q) = inr (_, _, refl, q)
