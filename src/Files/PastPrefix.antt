-- ===== src/Files/PastPrefix.antt =====
-- A run that starts past the stored prefix of its level: `put` of `FileStore` refuses it.
use rs_merkle_tree.Run.Method.{Ends, Ends-bind, Returns-Ends, fails}
use rs_merkle_tree.Node.{Node, len}
use rs_merkle_tree.Run.{past_prefix, store_error, err, past_prefix}
use rs_merkle_tree.Base.{ℕ, ◌/◌, ◌<◌, ◌≡◌, sym, ap, ◌∙◌, true, List, [], ◌∷◌, arith, ltb, length}
use rs_merkle_tree.Files.Written.{num_leaves-level_bytes}
use rs_merkle_tree.Files.Valid.{ensure_level_ok, IsValid, look, level_bytes}
use rs_merkle_tree.Files.{put, FileStore, get_num_leaves, write_run_at}

write_run_at-past_prefix :
    (s : FileStore) (level start : ℕ) (nodes : List Node)
    → IsValid s
    → level < length s.files
    → length (level_bytes s.disk level) / len < start
    → write_run_at level start nodes s
      ≡ (s, err (store_error (past_prefix level start (length (level_bytes s.disk level) / len))))
unfolding write_run_at
write_run_at-past_prefix s level start nodes v opened past =
    let past_test : ltb (length (level_bytes s.disk level) / len) start ≡ true = ground arith in
    rw (v.counted level opened, past_test)

-- A valid store refuses a nonempty run that starts past the end of what its level stores, wherever
-- it starts, with the place and the number of nodes of the level. The store is valid again (the
-- levels up to this one have files now), every position reads as before, and the number of leaves
-- is unchanged.
pub file_put-past_prefix :
    (s : FileStore) (level start : ℕ) (nodes : List Node)
    → IsValid s
    → 0 < length nodes
    → length (level_bytes s.disk level) / len < start
    → Ends
        (λ s' _. ⊥)
        (λ s' e.
          (e ≡ store_error (past_prefix level start (length (level_bytes s.disk level) / len)))
          × IsValid s'
          × ((l i : ℕ) → look s' l i ≡ look s l i)
          × (get_num_leaves s' ≡ get_num_leaves s))
        (put level start nodes s)
unfolding put
file_put-past_prefix s level start [] v some_node past = absurd (omega arith)
file_put-past_prefix s level start (n ∷ nodes) v some_node past =
    Ends-bind (Returns-Ends (ensure_level_ok level s v)) λ s1 _ (v1, count, same).
      let opened : level < length s1.files = omega (arith, count) in
      let refused =
        write_run_at-past_prefix s1 level start (n ∷ nodes) v1 opened (rw (same level) past) in
      rw refused (
        fails (
          rw (same level),
          v1,
          (λ l i. rw (same l)),
          num_leaves-level_bytes s1 v1
              ∙ ap (λ bytes. length bytes / len) (same 0)
              ∙ sym (num_leaves-level_bytes s v),
        ))
