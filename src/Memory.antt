-- ===== src/Memory.antt =====
-- src/stores/memory_store.rs: a vector of nodes for each level. `usize` has 64 bits, so the
-- conversion of `start` always succeeds.
pub mod Levels
pub mod Laws
use rs_merkle_tree.Base.{
  ℕ, suc, ◌+◌, ◌-◌, min, Bool, true, false, List, [], ◌∷◌, ◌++◌, Option, none, some, ◌==◌, leb, ltb,
  length, get_elem?, set, take, drop, replicate, if◌then◌else◌,
}
use rs_merkle_tree.Run.{Run, ok, err, store_error, past_prefix, length_mismatch, unwrap_or}
use rs_merkle_tree.Run.Method.{Method}
use rs_merkle_tree.Node.{Node}
use rs_merkle_tree.Store.{Store}

pub record MemoryStore : Type 0 where
  pub levels : List (List Node)

-- `MemoryStore::new`
unfoldable pub new : MemoryStore
new = record { levels = [] }

-- `self.levels.get(level).and_then(|nodes| nodes.get(index)).copied()`
unfoldable pub look : MemoryStore → ℕ → ℕ → Option Node
look s level index = elim (get_elem? s.levels level) [
  | none ↦ none
  | some nodes ↦ get_elem? nodes index
]

look_zip : MemoryStore → List ℕ → List ℕ → List (Option Node)
look_zip s (level ∷ levels) (index ∷ indices) = look s level index ∷ look_zip s levels indices
look_zip s _ _ = []

unfoldable pub get : MemoryStore → List ℕ → List ℕ → Run (List (Option Node))
unfolding look_zip
get s levels indices =
    if length levels == length indices
    then ok (look_zip s levels indices)
    else err (length_mismatch (length levels) (length indices))

-- `if levels.len() <= level { levels.resize_with(level + 1, Vec::new) }`
pub ensure_level : ℕ → List (List Node) → List (List Node)
ensure_level level levels =
    if leb (length levels) level then levels ++ replicate (level + 1 - length levels) [] else levels

-- The copy over the tail of the prefix, and the extension past it.
pub overwrite : List Node → ℕ → List Node → List Node
overwrite stored start nodes =
    let overwritten = min (length stored - start) (length nodes) in
    (take start stored ++ (take overwritten nodes ++ drop (start + overwritten) stored))
    ++ drop overwritten nodes

put_level : List (List Node) → ℕ → ℕ → List Node → Method MemoryStore (Unit {0})
unfolding overwrite
put_level levels level start nodes s =
    let stored = unwrap_or (get_elem? levels level) [] in
    if ltb (length stored) start
    then (record { levels = levels }, err (store_error (past_prefix level start (length stored))))
    else (record { levels = set levels level (overwrite stored start nodes) }, ok tt)

unfoldable pub put : ℕ → ℕ → List Node → Method MemoryStore (Unit {0})
unfolding put_level ensure_level
put level start [] s = (s, ok tt)
put level start (n ∷ nodes) s = put_level (ensure_level level s.levels) level start (n ∷ nodes) s

unfoldable pub get_num_leaves : MemoryStore → ℕ
get_num_leaves s = elim (get_elem? s.levels 0) [ none ↦ 0 | some leaves ↦ length leaves ]

instance abbrev pub memory_store : Store MemoryStore
memory_store = record { get = get; put = put; get_num_leaves = get_num_leaves }
