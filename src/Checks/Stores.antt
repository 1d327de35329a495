-- ===== src/Checks/Stores.antt =====
-- What the tests of src/stores/memory_store.rs and src/stores/file_store.rs have in common.
use rs_merkle_tree.Store.{Store}
use rs_merkle_tree.Node.{Node, len, node_eq}
use rs_merkle_tree.Run.{◌>>=◌, ◌>>◌, Run, ok, check}
use rs_merkle_tree.Base.{ℕ, Bool, true, false, ◌&&◌, Option, none, some, List, [], ◌∷◌, replicate}
use rs_merkle_tree.Checks.{unwrap, is_err}

-- `node(byte)`
abbrev pub node : ℕ → Node
node byte = record { bytes = replicate len byte }

abbrev option_eq : Option Node → Option Node → Bool
option_eq none none = true
option_eq (some m) (some n) = node_eq m n
option_eq _ _ = false

abbrev options_eq : List (Option Node) → List (Option Node) → Bool
options_eq [] [] = true
options_eq (a ∷ xs) (b ∷ ys) = option_eq a b && options_eq xs ys
options_eq _ _ = false

-- `assert!(store.put(…).is_err())`: the store after it.
abbrev pub rejected : {S A : Type 0} → S × Run A → Run S
rejected (s, r) = check (is_err r) >> ok s

-- `assert_eq!(store.get(levels, indices).unwrap(), expected)`
abbrev pub check_get :
    {S : Type 0} ⦃st : Store S⦄ → S → List ℕ → List ℕ → List (Option Node) → Run (Unit {0})
check_get ⦃st = st⦄ store levels indices expected = do
  found ← unwrap (st.get store levels indices)
  check (options_eq found expected)
