-- ===== src/Sqlite/Query.antt =====
-- src/stores/sqlite_store.rs: the statements, and the query that `get` builds.
use rs_merkle_tree.Store.{AreWords}
use rs_merkle_tree.Base.{
  ℕ, zero, suc, ◌+◌, ◌%◌, ◌^◌, ◌<◌, ◌≡◌, refl, ap, List, [], ◌∷◌, arith, length,
}
use Prim.Native.String.{String, ◌++◌}

abbrev pub max_params : ℕ
max_params = 256

-- `values.join(separator)`
abbrev pub join : String → List String → String
join separator [] = ""
join separator (value ∷ []) = value
join separator (value ∷ next ∷ values) = value ++ (separator ++ join separator (next ∷ values))

-- `x as i64`: an i64 stands as the u64 of the same bits.
abbrev pub as_i64 : ℕ → ℕ
as_i64 v = v % 2 ^ 64

-- One group of parameters for each position, and the values to bind, from the place `ord` on.
unfoldable pub build_values : List ℕ → List ℕ → List String
build_values (level ∷ levels) (idx ∷ indices) = "(?, ?, ?)" ∷ build_values levels indices
build_values _ _ = []

unfoldable pub build_binds : ℕ → List ℕ → List ℕ → List ℕ
build_binds ord (level ∷ levels) (idx ∷ indices) =
    as_i64 level ∷ as_i64 idx ∷ as_i64 ord ∷ build_binds (suc ord) levels indices
build_binds ord _ _ = []

unfoldable pub build_values_sql_and_binds : List ℕ → List ℕ → String × List ℕ
unfolding build_values build_binds
build_values_sql_and_binds levels indices =
    (join "," (build_values levels indices), build_binds 0 levels indices)

-- The query of `get` around its groups of parameters.
unfoldable pub select_sql : String → String
select_sql values =
    "WITH req(level, idx, ord) AS (VALUES "
    ++ (values ++ ") SELECT node FROM req LEFT JOIN nodes USING(level, idx) ORDER BY ord")

abbrev pub insert_node_sql : String
insert_node_sql = "INSERT OR REPLACE INTO nodes (level, idx, node) VALUES (?1, ?2, ?3)"

abbrev pub insert_metadata_sql : String
insert_metadata_sql = "INSERT OR REPLACE INTO metadata (key, value) VALUES (?1, ?2)"

abbrev pub key_num_leaves : String
key_num_leaves = "NUM_LEAVES"

-- What the database documents of the query is stated for these: `n` groups of parameters, and the
-- values for a list of positions.
abbrev pub groups : ℕ → String
groups zero = ""
groups (suc zero) = "(?, ?, ?)"
groups (suc (suc n)) = "(?, ?, ?)" ++ ("," ++ groups (suc n))

abbrev pub triples : ℕ → List (ℕ × ℕ) → List ℕ
triples ord [] = []
triples ord ((level, idx) ∷ keys) = level ∷ idx ∷ ord ∷ triples (suc ord) keys

abbrev pub pairs_of : List ℕ → List ℕ → List (ℕ × ℕ)
pairs_of (level ∷ levels) (idx ∷ indices) = (level, idx) ∷ pairs_of levels indices
pairs_of _ _ = []

pub length-pairs_of :
    (levels indices : List ℕ)
    → length levels ≡ length indices
    → length (pairs_of levels indices) ≡ length levels
length-pairs_of [] indices h = refl
length-pairs_of (l ∷ levels) [] h = absurd (omega arith)
length-pairs_of (l ∷ levels) (i ∷ indices) h = ap suc (length-pairs_of levels indices (omega arith))

build_values-groups :
    (levels indices : List ℕ)
    → length levels ≡ length indices
    → join "," (build_values levels indices) ≡ groups (length levels)
unfolding build_values
build_values-groups [] indices h = refl
build_values-groups (l ∷ levels) [] h = absurd (omega arith)
build_values-groups (l ∷ []) (i ∷ indices) h = refl
build_values-groups (l ∷ k ∷ levels) (i ∷ []) h = absurd (omega arith)
build_values-groups (l ∷ k ∷ levels) (i ∷ j ∷ indices) h =
    ap (λ rest. "(?, ?, ?)" ++ ("," ++ rest))
      (build_values-groups (k ∷ levels) (j ∷ indices) (omega arith))

build_binds-triples :
    (ord : ℕ) (levels indices : List ℕ)
    → ord + length levels < 2 ^ 64
    → AreWords levels indices
    → build_binds ord levels indices ≡ triples ord (pairs_of levels indices)
unfolding build_binds
build_binds-triples ord [] indices h words = refl
build_binds-triples ord (l ∷ levels) [] h words = refl
build_binds-triples ord (l ∷ levels) (i ∷ indices) h words =
    let level : as_i64 l ≡ l = omega (arith, words.0.0) in
    let idx : as_i64 i ≡ i = omega (arith, words.1.0) in
    let place : as_i64 ord ≡ ord = omega arith in
    rw (level, idx, place)
      (ap (λ rest. l ∷ i ∷ ord ∷ rest)
        (build_binds-triples (suc ord) levels indices (omega arith) (words.0.1, words.1.1)))

-- For two lists of one length below `2 ^ 64`, of levels and indices of their machine words: the
-- query has one group of three parameters for each position, and the values to bind are the level,
-- the index and the place of each position, in order.
pub build_values_sql_and_binds-triples :
    (levels indices : List ℕ)
    → length levels ≡ length indices
    → length levels < 2 ^ 64
    → AreWords levels indices
    → build_values_sql_and_binds levels indices
      ≡ (groups (length levels), triples 0 (pairs_of levels indices))
unfolding build_values_sql_and_binds
build_values_sql_and_binds-triples levels indices same h words = rw (
  build_values-groups levels indices same,
  build_binds-triples 0 levels indices (omega arith) words,
)
