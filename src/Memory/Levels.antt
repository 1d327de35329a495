-- ===== src/Memory/Levels.antt =====
-- The vectors of a `MemoryStore`: a level made and a run copied into it.
use rs_merkle_tree.Base.{
  get_elem?-splice, get_elem?-replicate, length-replicate, ◌<◌, max, take_all, drop_all,
  take-append-drop, append-nil, append_assoc, Bool-cases, inl, inr, min, length, ltb, leb, ℕ, ◌+◌,
  ◌-◌, ◌≤◌, min, ◌≡◌, ◌&&◌, List, [], ◌++◌, leb, ltb, length, arith, get_elem?, take, drop,
  replicate, if◌then◌else◌, length-append, length-take, length-drop, get_elem?-append, get_elem?-le,
}
use rs_merkle_tree.Node.{Node}
use rs_merkle_tree.Memory.{
  ensure_level, get_num_leaves, unwrap_or, MemoryStore, look, overwrite, memory_store,
}

-- The copy and the extension together put the run at `start`.
pub overwrite_lem :
    (stored : List Node) (start : ℕ) (nodes : List Node)
    → start ≤ length stored
    → overwrite stored start nodes
      ≡ take start stored ++ (nodes ++ drop (start + length nodes) stored)
unfolding overwrite
overwrite_lem stored start nodes h =
    elim (Bool-cases (leb (length nodes) (length stored - start))) [
      | inl inside ↦
          let all : min (length stored - start) (length nodes) ≡ length nodes = ground arith in
          rw
            (
              all,
              take_all (length nodes) nodes (omega arith),
              drop_all (length nodes) nodes (omega arith),
            )
            (append-nil _)
      | inr past ↦
          let all : min (length stored - start) (length nodes) ≡ length stored - start =
            ground arith in
          rw
            (
              all,
              drop_all (start + (length stored - start)) stored (omega arith),
              drop_all (start + length nodes) stored (ground arith),
            )
            (simp (append-nil, append_assoc, take-append-drop))
    ]

pub get_elem?-overwrite :
    (stored : List Node) (start : ℕ) (nodes : List Node) (i : ℕ)
    → start ≤ length stored
    → get_elem? (overwrite stored start nodes) i ≡ (
        if leb start i && ltb i (start + length nodes)
        then get_elem? nodes (i - start)
        else get_elem? stored i)
get_elem?-overwrite stored start nodes i h =
    rw (overwrite_lem stored start nodes h) (get_elem?-splice stored start nodes i h)

-- The nodes of a level: none where the vector has no such level.
abbrev pub nodes_at : List (List Node) → ℕ → List Node
nodes_at levels level = unwrap_or (get_elem? levels level) []

pub look-nodes_at : (s : MemoryStore) (l i : ℕ) → look s l i ≡ get_elem? (nodes_at s.levels l) i
unfolding look
look-nodes_at s l i = ground arith

pub num_leaves-nodes_at : (s : MemoryStore) → get_num_leaves s ≡ length (nodes_at s.levels 0)
unfolding get_num_leaves
num_leaves-nodes_at s = ground arith

pub nodes_at-ensure_level :
    (level l : ℕ) (levels : List (List Node))
    → nodes_at (ensure_level level levels) l ≡ nodes_at levels l
unfolding ensure_level
nodes_at-ensure_level level l levels =
    let more = level + 1 - length levels in
    ground (
      arith,
      get_elem?-append levels (replicate more []) l,
      get_elem?-replicate {A = List Node} more [] (l - length levels),
      get_elem?-le levels l,
    )

pub length-ensure_level :
    (level : ℕ) (levels : List (List Node)) → level < length (ensure_level level levels)
unfolding ensure_level
length-ensure_level level levels =
    let more = level + 1 - length levels in
    ground
      (arith, length-append levels (replicate more []), length-replicate {A = List Node} more [])

module _ (stored : List Node) (start : ℕ) (nodes : List Node) (h : start ≤ length stored) where
  pub length-overwrite :
      length (overwrite stored start nodes) ≡ max (length stored) (start + length nodes)
  length-overwrite = rw (overwrite_lem stored start nodes h) (
      omega (
        arith,
        length-append (take start stored) (nodes ++ drop (start + length nodes) stored),
        length-append nodes (drop (start + length nodes) stored),
        length-take start stored,
        length-drop (start + length nodes) stored,
      ))
