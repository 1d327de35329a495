-- ===== src/Durable/Resume.antt =====
-- Leaves added after the store and the tree were opened again, as in
-- `test_merkle_tree_keccak_32_file` of tests/tree.rs.
use rs_merkle_tree.Tree.Create.{new-hasher}
use rs_merkle_tree.Store.{Store, StoreLaws}
use rs_merkle_tree.Run.Method.{Returns-inv}
use rs_merkle_tree.Node.{Node, IsNode}
use rs_merkle_tree.Run.{ok}
use rs_merkle_tree.Base.{
  ℕ, ◌+◌, ◌^◌, ◌≤◌, ◌<◌, ◌≡◌, sym, ◌∙◌, some, List, [], ◌++◌, arith, length, All, length-append,
  All-append,
}
use rs_merkle_tree.Checks.Filled.{empty, empty-Represents, new_tree_ok}
use rs_merkle_tree.Durable.{files_reopened}
use rs_merkle_tree.Files
use rs_merkle_tree.Files.{FileStore, file_store}
use rs_merkle_tree.Files.Laws.{file_laws}
use rs_merkle_tree.Hasher.{IsHasher, Hasher}
use rs_merkle_tree.Memory
use rs_merkle_tree.Memory.{MemoryStore, memory_store}
use rs_merkle_tree.Memory.Laws.{memory_laws}
use rs_merkle_tree.Tree
use rs_merkle_tree.Tree.{fill_zeros, MerkleTree}
use rs_merkle_tree.Tree.Insert.{add_leaves}
use rs_merkle_tree.Tree.Insert.Correct.{add_leaves-Represents}
use rs_merkle_tree.Tree.Query.{root, proof, num_leaves}
use rs_merkle_tree.Tree.Query.Agree.{Represents-agree}
use rs_merkle_tree.Tree.Spec.{Represents}

-- Two trees of one depth that answer alike.
abbrev pub Agree :
    {S S' : Type 0} ⦃st : Store S⦄ ⦃st' : Store S'⦄ → ℕ → MerkleTree S → MerkleTree S' → Type 0
Agree depth u u' =
    (root depth u ≡ root depth u')
    × (num_leaves u ≡ num_leaves u')
    × ((leaf_idx : ℕ) → proof depth leaf_idx u ≡ proof depth leaf_idx u')

-- A tree that holds the leaves `xs` and is given more, beside a new one in memory that is given
-- all of them at once: both take them, and answer alike.
more_leaves-Agree :
    {S : Type 0} ⦃st : Store S⦄ (laws : StoreLaws st) (steady : ¬ laws.Refuses) (depth : ℕ)
    (positive : 0 < depth) (small : depth < 64) (hasher : Hasher) (t : MerkleTree S)
    (xs ys : List Node)
    → Represents laws depth t xs
    → t.hasher ≡ hasher
    → length xs + length ys ≤ 2 ^ depth
    → All IsNode ys
    → (u : MerkleTree S) × (m : MerkleTree MemoryStore) × (m' : MerkleTree MemoryStore)
      × (add_leaves depth ys t ≡ (u, ok tt))
      × (Tree.new depth hasher Memory.new ≡ ok m)
      × (add_leaves depth (xs ++ ys) m ≡ (m', ok tt))
      × Agree depth u m'
more_leaves-Agree laws steady depth positive small hasher t xs ys r same fits are_nodes =
    let is_hasher : IsHasher hasher = rw same at r.is_tree.is_hasher in
    let (u, _, added, (ru, hu)) =
      Returns-inv (add_leaves-Represents laws depth small t xs r ys steady fits are_nodes) in
    let m = empty depth positive small hasher is_hasher in
    let (m', _, filled, (rm, hm)) = Returns-inv (
      add_leaves-Represents memory_laws depth small m []
        (empty-Represents depth positive small hasher is_hasher) (xs ++ ys) (λ never. never)
        (omega (arith, length-append xs ys)) (All-append IsNode xs ys r.are_nodes are_nodes)) in
    (
      u,
      m,
      m',
      added,
      new_tree_ok depth positive small hasher is_hasher,
      filled,
      Represents-agree laws memory_laws depth u m' (xs ++ ys) small ru rm (hu ∙ same ∙ sym hm),
    )

-- Of a tree of positive depth over a `FileStore`, that holds the leaves `xs`: a store opened on the
-- same directory, with fuel for one round more than it has levels, and a tree over it, with the
-- same hasher, are made; that tree takes any nodes `ys` that fit beside `xs`; and it then has the
-- root, the number of leaves and every proof of a new tree in memory that takes `xs` and `ys` in
-- one call.
pub files_resumed :
    (depth fuel : ℕ) (t : MerkleTree FileStore) (xs ys : List Node)
    → 0 < depth
    → depth < 64
    → Represents file_laws depth t xs
    → length t.store.files < fuel
    → length xs + length ys ≤ 2 ^ depth
    → All IsNode ys
    → (s : FileStore) × (t' : MerkleTree FileStore) × (u : MerkleTree FileStore) × (m : MerkleTree
        MemoryStore)
      × (m' : MerkleTree MemoryStore) × (Files.new fuel t.store.disk ≡ some (ok s))
      × (Tree.new depth t.hasher s ≡ ok t')
      × (add_leaves depth ys t' ≡ (u, ok tt))
      × (Tree.new depth t.hasher Memory.new ≡ ok m)
      × (add_leaves depth (xs ++ ys) m ≡ (m', ok tt))
      × Agree depth u m'
files_resumed depth fuel t xs ys positive small r enough fits are_nodes =
    let (s, t', opened, made, r') = files_reopened depth fuel t xs positive r enough in
    let (u, m, m', added, new, filled, agree) =
      more_leaves-Agree file_laws (λ never. never) depth positive small t.hasher t' xs ys r'
        (new-hasher depth t.hasher s t' made) fits are_nodes in
    (s, t', u, m, m', opened, made, added, new, filled, agree)
