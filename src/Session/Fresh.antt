-- ===== src/Session/Fresh.antt =====
-- Sequences of calls from the first use of a store on: the `new` of the store over an empty
-- directory or database, then `MerkleTree::new`, then the calls. Session/Fresh/Databases is about
-- the databases.
pub mod Databases
use rs_merkle_tree.Files.{file_store}
use rs_merkle_tree.Files.System
use rs_merkle_tree.Files.Valid
use native.Mathlib.Nat.{pow-le-pow_right}
use rs_merkle_tree.Files.Name.{level_file_name}
use rs_merkle_tree.Files.System.{Disk}
use rs_merkle_tree.Files.{FileStore}
use rs_merkle_tree.Files.Laws.{file_laws}
use rs_merkle_tree.Files.Reopen.{new-reopen}
use rs_merkle_tree.Tree.Spec.Facts.{stored-nil}
use rs_merkle_tree.Tree.Create.{new-Represents, new-hasher}
use rs_merkle_tree.Tree.{MerkleTree}
use rs_merkle_tree.Hasher.{Hasher, IsHasher}
use rs_merkle_tree.Session.Stores.{files_session}
use rs_merkle_tree.Session.Again.{files_again}
use rs_merkle_tree.Session.Serves.{Serves}
use rs_merkle_tree.Session.{Call, IsCall, run, replay}
use rs_merkle_tree.Store.{Store, StoreLaws}
use rs_merkle_tree.Run.{ok}
use rs_merkle_tree.Base.{ℕ, ◌^◌, ◌≤◌, ◌<◌, ◌≡◌, refl, sym, ◌∙◌, none, some, List, [], arith, All}
use rs_merkle_tree.Files
use rs_merkle_tree.Tree

-- A tree over an empty store.
pub new-Serves :
    {S : Type 0} ⦃st : Store S⦄ (laws : StoreLaws st) (depth : ℕ) (hasher : Hasher) (s : S)
    → 0 < depth
    → IsHasher hasher
    → 2 ^ depth ≤ laws.capacity
    → laws.IsValid s
    → ((l i : ℕ) → laws.look s l i ≡ none)
    → st.get_num_leaves s ≡ 0
    → (t : MerkleTree S) × (Tree.new depth hasher s ≡ ok t) × Serves laws depth hasher t []
new-Serves laws depth hasher s positive is_hasher roomy valid nothing count =
    let (t, made, r) = new-Represents laws depth positive hasher is_hasher s [] (record {
      valid = valid;
      holds = λ l i _. nothing l i ∙ sym (stored-nil hasher.hash l i);
      counted = count;
      fits = omega arith;
      roomy = roomy;
      are_nodes = tt;
    }) in
    (t, made, record { represents = r; same = new-hasher depth hasher s t made })

pub places : (depth bound : ℕ) → depth ≤ bound → 2 ^ depth ≤ 2 ^ bound
places depth bound small = pow-le-pow_right {n = 2} (omega arith) {j = bound} small

-- A store on a directory without files.
abbrev no_files : Disk → FileStore
no_files disk = record { disk = disk; files = []; counts = [] }

no_files-IsValid :
    (disk : Disk)
    → ((c : Files.System.Call) → disk.refusal c ≡ none)
    → ((l : ℕ) → disk.contents (level_file_name l) ≡ none)
    → Files.Valid.IsValid (no_files disk)
no_files-IsValid disk willing bare = record {
  no_refusal = willing;
  same = refl;
  named = λ l h. absurd (omega arith);
  counted = λ l h. absurd (omega arith);
  there = λ l h. absurd (omega arith);
  beyond = λ l h. bare l;
  bounded = λ l. rw (bare l) (omega arith);
}

-- On a directory without files of levels, where the system refuses no call, with a lawful hasher
-- and at a positive depth below 58: `FileStore::new`, with fuel for one round, and
-- `MerkleTree::new` return, and every sequence of calls after that (batches of nodes that fit or do
-- not, `root`, proofs of any index, `num_leaves`, checks of any proofs, and openings of the store
-- and the tree), gives the answers that the calls have over the list of the leaves, from the empty
-- list on, and ends with a tree that holds the leaves of that list.
pub files_from_empty :
    (depth : ℕ) (hasher : Hasher) (disk : Disk) (calls : List Call)
    → 0 < depth
    → depth < 58
    → IsHasher hasher
    → ((c : Files.System.Call) → disk.refusal c ≡ none)
    → ((l : ℕ) → disk.contents (level_file_name l) ≡ none)
    → All IsCall calls
    → (s : FileStore) × (t : MerkleTree FileStore) × (u : MerkleTree FileStore) × (Files.new 1 disk
        ≡ some (ok s))
      × (Tree.new depth hasher s ≡ ok t)
      × (run (files_again depth) depth calls t ≡ (u, (replay hasher depth calls []).1))
      × Serves file_laws depth hasher u (replay hasher depth calls []).0
unfolding Files.get_num_leaves
files_from_empty depth hasher disk calls positive small is_hasher willing bare good =
    let s = no_files disk in
    let valid = no_files-IsValid disk willing bare in
    let bound = places depth 57 (omega arith) in
    let (t, made, serves) =
      new-Serves file_laws depth hasher s positive is_hasher (omega (arith, bound)) valid
        (λ l i. rw (bare l) (ground arith)) refl in
    let (u, answers, serves') =
      files_session depth hasher calls t [] positive (omega arith) serves good in
    (s, t, u, new-reopen s valid 1 (omega arith), made, answers, serves')
