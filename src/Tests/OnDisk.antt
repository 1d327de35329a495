-- ===== src/Tests/OnDisk.antt =====
-- The theorems on `FileStore` at an empty directory and at one with a single file.
use rs_merkle_tree.Files.PastPrefix.{file_put-past_prefix}
use rs_merkle_tree.Store.{write_run}
use rs_merkle_tree.Run.{past_prefix, store_error, past_prefix, store_error, ok}
use rs_merkle_tree.Base.{
  ◌/◌, min, ◌-◌, ◌^◌, inr, ℕ, ◌+◌, max, ◌≡◌, refl, ◌≢◌, none, some, [], arith, ◌==◌, if◌then◌else◌,
}
use rs_merkle_tree.Tests.{hasher, hasher-IsHasher, pair, pair-IsRun, five, five-nodes}
use rs_merkle_tree.Files.{FileStore, file_store, put, new, get_num_leaves, read_node}
use rs_merkle_tree.Files.System.{Disk, io_err}
use rs_merkle_tree.Files.Name.{level_file_name}
use rs_merkle_tree.Files.Valid.{IsValid, look, opened, opened-IsValid, name_test}
use rs_merkle_tree.Files.Laws.{file_laws, file_put_ok}
use rs_merkle_tree.Files.Reopen.{new-ne-none}
use rs_merkle_tree.Files.Refused.{without_refusals, put-refused_reopened, put-refused}
use rs_merkle_tree.Memory.{memory_store}
use rs_merkle_tree.Tree.{MerkleTree}
use rs_merkle_tree.Tree.Create.{made, made-Represents}
use rs_merkle_tree.Tree.Spec.{Represents}
use rs_merkle_tree.Tree.Spec.Facts.{stored-nil}
use rs_merkle_tree.Tree.Insert.{add_leaves}
use rs_merkle_tree.Tree.Insert.Correct.{add_leaves-Represents}
use rs_merkle_tree.Run.Method.{Ends, Returns, Returns-state}

abbrev pub bare : Disk
bare = record { contents = λ _. none; refusal = λ _. none }

abbrev none_open : FileStore
none_open = record { disk = bare; files = []; counts = [] }

none_open-IsValid : IsValid none_open
none_open-IsValid = record {
  no_refusal = λ c. refl;
  same = refl;
  named = λ l h. absurd (omega arith);
  counted = λ l h. absurd (omega arith);
  there = λ l h. absurd (omega arith);
  beyond = λ l h. refl;
  bounded = λ l. omega arith;
}

file_put_ok_example :
    Returns
      (λ s' _.
        IsValid s'
        × ((l i : ℕ) → look s' l i ≡ write_run (look none_open) 0 0 pair l i)
        × (get_num_leaves s' ≡ (
            if 0 == 0 then max (get_num_leaves none_open) (0 + 2) else get_num_leaves none_open)))
      (put 0 0 pair none_open)
file_put_ok_example =
    file_put_ok none_open 0 0 pair none_open-IsValid (pair-IsRun (look none_open)) (omega arith)

-- A start at the end of u64.
file_put-past_prefix_example :
    Ends
      (λ s' _. ⊥)
      (λ s' e.
        (e ≡ store_error (past_prefix 0 (2 ^ 64 - 1) 0))
        × IsValid s'
        × ((l i : ℕ) → look s' l i ≡ look none_open l i)
        × (get_num_leaves s' ≡ get_num_leaves none_open))
      (put 0 (2 ^ 64 - 1) pair none_open)
file_put-past_prefix_example =
    file_put-past_prefix none_open 0 (2 ^ 64 - 1) pair none_open-IsValid (omega arith) (omega arith)

abbrev one_open : FileStore
one_open = opened none_open none_open-IsValid

new-ne-none_example : new 2 one_open.disk ≢ none
unfolding level_file_name
new-ne-none_example = new-ne-none 2 1 one_open.disk (rw (name_test 1 0)) (omega arith)

-- A disk that is full after five bytes.
abbrev full_disk : FileStore
full_disk = record one_open { disk = record one_open.disk { refusal = λ _. some (28, 5) } }

put-refused_example :
    ((put 0 0 pair full_disk).1 ≡ io_err 28)
    × (get_num_leaves (put 0 0 pair full_disk).0 ≡ get_num_leaves full_disk)
    × (read_node (put 0 0 pair full_disk).0 0 2 ≡ read_node full_disk 0 2)
put-refused_example =
    put-refused full_disk (opened-IsValid none_open none_open-IsValid) 0 0 28 5 pair (omega arith)
      ((pair-IsRun (look none_open)).are_nodes) (omega arith) (omega arith) refl 0 2 (omega arith)
      (λ _. inr (omega arith))

put-refused_reopened_example :
    (s' : FileStore) × (new 2 (without_refusals (put 0 0 pair full_disk).0).disk ≡ some (ok s'))
    × IsValid s'
    × (look s' 0 2 ≡ look full_disk 0 2)
    × (get_num_leaves s' ≡ (
        if 0 == 0
        then max (get_num_leaves full_disk) (0 + min (5 / 32) 2)
        else get_num_leaves full_disk))
put-refused_reopened_example =
    put-refused_reopened full_disk (opened-IsValid none_open none_open-IsValid) 0 0 28 5 pair
      (omega arith) ((pair-IsRun (look none_open)).are_nodes) (omega arith) (omega arith) refl 2 0 2
      (omega arith) (omega arith) (λ _. inr (omega arith))

abbrev empty : MerkleTree FileStore
empty = made 3 hasher none_open

empty-Represents : Represents file_laws 3 empty []
unfolding get_num_leaves
empty-Represents =
    made-Represents file_laws 3 (omega arith) hasher hasher-IsHasher none_open [] (record {
      valid = none_open-IsValid;
      holds = λ l i _. rw (stored-nil hasher.hash l i) (ground arith);
      counted = refl;
      fits = omega arith;
      roomy = omega arith;
      are_nodes = tt;
    })

abbrev pub sample : MerkleTree FileStore
sample = (add_leaves 3 five empty).0

pub sample_added : (Represents file_laws 3 sample five) × (sample.hasher ≡ hasher)
sample_added =
    (Returns-state (
      add_leaves-Represents file_laws 3 (omega arith) empty [] empty-Represents five
        (λ never. never) (omega arith) five-nodes)).1
