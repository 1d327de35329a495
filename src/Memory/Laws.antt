-- ===== src/Memory/Laws.antt =====
-- The memory store keeps the promise of the trait.
use rs_merkle_tree.Memory.Levels.{
  get_elem?-overwrite, look-nodes_at, num_leaves-nodes_at, nodes_at-ensure_level,
  length-ensure_level, length-overwrite, nodes_at,
}
use rs_merkle_tree.Base.{
  ◌^◌, lt→ltb, true, get_elem?-lt, get_elem?-set, le→ltb, set, ◌==◌, ◌<◌, max, Bool-cases, inl, inr,
  length, ltb, ℕ, ◌+◌, ◌≤◌, ◌≡◌, ◌≢◌, refl, ap, List, [], ◌∷◌, none, ltb, length, arith, get_elem?,
  if◌then◌else◌, get_elem?-le,
}
use rs_merkle_tree.Run.{ok, err, length_mismatch}
use rs_merkle_tree.Run.Method.{Returns-Ends, Returns, returns}
use rs_merkle_tree.Node.{Node}
use rs_merkle_tree.Store.{IsRun, StoreLaws, write_run, look_each}
use rs_merkle_tree.Memory.{
  past_prefix, store_error, new, put, put_level, ensure_level, get_num_leaves, MemoryStore, look,
  look_zip, get, overwrite, memory_store,
}

look_zip-look_each :
    (s : MemoryStore) (levels indices : List ℕ)
    → look_zip s levels indices ≡ look_each (look s) levels indices
unfolding look_zip
look_zip-look_each s [] indices = refl
look_zip-look_each s (l ∷ levels) [] = refl
look_zip-look_each s (l ∷ levels) (i ∷ indices) =
    ap (◌∷◌ (look s l i)) (look_zip-look_each s levels indices)

pub get_ok :
    (s : MemoryStore) (levels indices : List ℕ)
    → length levels ≡ length indices
    → get s levels indices ≡ ok (look_each (look s) levels indices)
unfolding get
get_ok s levels indices h = ground (arith, look_zip-look_each s levels indices)

pub get_mismatch :
    (s : MemoryStore) (levels indices : List ℕ)
    → length levels ≢ length indices
    → get s levels indices ≡ err (length_mismatch (length levels) (length indices))
unfolding get
get_mismatch s levels indices h = ground arith

no_hole-le :
    (stored : List Node) (start : ℕ)
    → ((i : ℕ) → i < start → get_elem? stored i ≢ none)
    → start ≤ length stored
no_hole-le stored start h = elim (Bool-cases (ltb (length stored) start)) [
  | inl short ↦
      absurd (h (length stored) (ground arith) (get_elem?-le stored (length stored) (omega arith)))
  | inr long ↦ ground arith
]

put_level_ok :
    (s : MemoryStore) (levels : List (List Node)) (level start : ℕ) (nodes : List Node)
    → ((l : ℕ) → nodes_at levels l ≡ nodes_at s.levels l)
    → level < length levels
    → start ≤ length (nodes_at s.levels level)
    → Returns
        (λ s' _.
          Unit
          × ((l i : ℕ) → look s' l i ≡ write_run (look s) level start nodes l i)
          × (get_num_leaves s' ≡ (
              if level == 0
              then max (get_num_leaves s) (start + length nodes)
              else get_num_leaves s)))
        (put_level levels level start nodes s)
unfolding put_level
put_level_ok s levels level start nodes same inside h =
    let stored = nodes_at s.levels level in
    let written = overwrite stored start nodes in
    let s' : MemoryStore = record { levels = set levels level written } in
    rw (same level, le→ltb (length stored) start h)
      (returns (
        tt,
        (λ l i. ground (
          arith,
          look-nodes_at s' l i,
          look-nodes_at s l i,
          get_elem?-set levels level l written inside,
          same l,
          get_elem?-overwrite stored start nodes i h,
        )),
        ground (
          arith,
          num_leaves-nodes_at s',
          num_leaves-nodes_at s,
          get_elem?-set levels level 0 written inside,
          same 0,
          length-overwrite stored start nodes h,
        ),
      ))

-- A run that fits the machine integers, is not empty and leaves no hole: `put` returns, the run is
-- read at its place, every other position reads as before, and the number of leaves grows to the
-- end of a run of level 0 and is otherwise unchanged.
pub put_ok :
    (s : MemoryStore) (level start : ℕ) (nodes : List Node)
    → IsRun (look s) level start nodes
    → Returns
        (λ s' _.
          Unit
          × ((l i : ℕ) → look s' l i ≡ write_run (look s) level start nodes l i)
          × (get_num_leaves s' ≡ (
              if level == 0
              then max (get_num_leaves s) (start + length nodes)
              else get_num_leaves s)))
        (put level start nodes s)
unfolding put
put_ok s level start [] run = absurd (omega (arith, run.nonempty))
put_ok s level start (n ∷ nodes) run =
    put_level_ok s (ensure_level level s.levels) level start (n ∷ nodes)
      (λ l. nodes_at-ensure_level level l s.levels) (length-ensure_level level s.levels)
      (no_hole-le (nodes_at s.levels level) start (λ i h. rw look-nodes_at at (run.no_hole i h)))

-- The memory store keeps the trait's promise in every state, and its vectors never have a hole.
abbrev pub memory_laws : StoreLaws memory_store
memory_laws = record {
  IsValid = λ _. Unit;
  look = look;
  capacity = 2 ^ 64;
  get_ok = λ s levels indices _ _ _. get_ok s levels indices;
  get_mismatch = get_mismatch;
  Refuses = ⊥;
  put_ends = λ s level start nodes _ run _. Returns-Ends (put_ok s level start nodes run);
}

pub look-new : (l i : ℕ) → look new l i ≡ none
unfolding look new
look-new l i = refl

pub num_leaves-new : get_num_leaves new ≡ 0
unfolding get_num_leaves new
num_leaves-new = refl

-- `get` returns what each position reads where the two lists have the same length, and an error
-- with the two lengths otherwise.
pub get-look :
    (s : MemoryStore) (levels indices : List ℕ)
    → get s levels indices ≡ (
        if length levels == length indices
        then ok (look_each (look s) levels indices)
        else err (length_mismatch (length levels) (length indices)))
unfolding get
get-look s levels indices = ground (arith, look_zip-look_each s levels indices)

-- A nonempty run that starts past the end of what its level stores is refused with the place and
-- the length, and every position reads as before.
pub put-past_prefix :
    (s : MemoryStore) (level start size : ℕ) (nodes : List Node)
    → 0 < length nodes
    → size < start
    → ((i : ℕ) → i < size → look s level i ≢ none)
    → look s level size ≡ none
    → ((put level start nodes s).1 ≡ err (store_error (past_prefix level start size)))
      × ((l i : ℕ) → look (put level start nodes s).0 l i ≡ look s l i)
unfolding put put_level
put-past_prefix s level start size [] some_node past before after = absurd (omega arith)
put-past_prefix s level start size (n ∷ nodes) some_node past before after =
    let levels = ensure_level level s.levels in
    let same = nodes_at-ensure_level level level s.levels in
    let stored = nodes_at s.levels level in
    let long = no_hole-le stored size (λ i h. rw look-nodes_at at (before i h)) in
    let whole : length stored ≡ size =
      ground (arith, get_elem?-lt stored size, look-nodes_at s level size) in
    let refused : ltb (length stored) start ≡ true = lt→ltb _ _ (omega (arith, whole)) in
    rw (same, refused, whole)
      (
        refl,
        λ l i. ground (
          arith,
          look-nodes_at s l i,
          look-nodes_at (record { levels = levels }) l i,
          nodes_at-ensure_level level l s.levels,
        ),
      )
