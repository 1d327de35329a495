-- ===== src/Files/Laws.antt =====
-- A valid `FileStore` keeps the promise of the trait.
use rs_merkle_tree.Files.Reads.{get_ok, get_mismatch}
use rs_merkle_tree.Files.Written.{
  capacity, num_leaves-level_bytes, write_run_at_ok, written-IsValid, written-look,
  written-num_leaves,
}
use rs_merkle_tree.Run.Method.{Returns-Ends, Returns, returns, Returns-bind}
use rs_merkle_tree.Files.{file_store, put, FileStore, get_num_leaves}
use rs_merkle_tree.Files.Valid.{ensure_level_ok, IsValid, look, level_bytes}
use rs_merkle_tree.Store.{StoreLaws, IsRun, write_run}
use rs_merkle_tree.Node.{Node, len}
use rs_merkle_tree.Base.{
  sym, ap, ◌≢◌, false, none, ℕ, ◌+◌, ◌/◌, ◌≤◌, ◌<◌, max, ◌≡◌, ◌∙◌, inl, inr, List, [], ◌∷◌, arith,
  ltb, ◌==◌, if◌then◌else◌, le→ltb, Bool-cases, length,
}

no_hole-le :
    (s : FileStore) (level start : ℕ)
    → ((i : ℕ) → i < start → look s level i ≢ none)
    → start ≤ length (level_bytes s.disk level) / len
no_hole-le s level start no_hole =
    let count = length (level_bytes s.disk level) / len in
    elim (Bool-cases (ltb count start)) [
      | inl short ↦
          let past : ltb count count ≡ false = le→ltb _ _ (omega arith) in
          absurd (no_hole count (ground arith) (rw past))
      | inr long ↦ ground arith
    ]

-- A valid store takes each run that the tree may write and that its files have room for: it is
-- valid again, the run is read at its place, every other position reads as before, and the number
-- of leaves grows to the end of a run of level 0.
pub file_put_ok :
    (s : FileStore) (level start : ℕ) (nodes : List Node)
    → IsValid s
    → IsRun (look s) level start nodes
    → start + length nodes ≤ capacity
    → Returns
        (λ s' _.
          IsValid s'
          × ((l i : ℕ) → look s' l i ≡ write_run (look s) level start nodes l i)
          × (get_num_leaves s' ≡ (
              if level == 0
              then max (get_num_leaves s) (start + length nodes)
              else get_num_leaves s)))
        (put level start nodes s)
unfolding put
file_put_ok s level start [] v run room = absurd (omega (arith, run.nonempty))
file_put_ok s level start (n ∷ nodes) v run room =
    Returns-bind (ensure_level_ok level s v) λ s1 _ (v1, count, same).
      let inside : start ≤ length (level_bytes s1.disk level) / len =
        rw (same level) (no_hole-le s level start run.no_hole) in
      let opened : level < length s1.files = omega (arith, count) in
      rw (write_run_at_ok s1 v1 level start (n ∷ nodes) opened run.are_nodes inside room) (
        returns (
          written-IsValid s1 v1 level start (n ∷ nodes) opened run.are_nodes inside room,
          (λ l i.
              written-look s1 v1 level start (n ∷ nodes) opened run.are_nodes inside room l i
              ∙ rw (same l)),
          written-num_leaves s1 v1 level start (n ∷ nodes) opened run.are_nodes inside room
              ∙ ap (λ k. if level == 0 then max k (start + length (n ∷ nodes)) else k)
                  (num_leaves-level_bytes s1 v1
                    ∙ ap (λ bytes. length bytes / len) (same 0)
                    ∙ sym (num_leaves-level_bytes s v)),
        ))

-- The file store keeps the trait's promise in every valid state.
abbrev pub file_laws : StoreLaws file_store
file_laws = record {
  IsValid = IsValid;
  look = look;
  capacity = capacity;
  get_ok = λ s levels indices v _ _ same. get_ok s levels indices v same;
  get_mismatch = get_mismatch;
  Refuses = ⊥;
  put_ends =
      λ s level start nodes v run room. Returns-Ends (file_put_ok s level start nodes v run room);
}
