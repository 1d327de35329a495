-- ===== src/Session/Agree.antt =====
-- The same calls over two stores.
use rs_merkle_tree.Session.Refines.{run-replay}
use rs_merkle_tree.Session.Serves.{Serves, Reopens}
use rs_merkle_tree.Session.{Call, IsCall, run}
use rs_merkle_tree.Hasher.{Hasher}
use rs_merkle_tree.Tree.{MerkleTree}
use rs_merkle_tree.Store.{Store, StoreLaws}
use rs_merkle_tree.Node.{Node}
use rs_merkle_tree.Run.{Run}
use rs_merkle_tree.Base.{ℕ, ◌<◌, ◌≡◌, sym, ap, ◌∙◌, List, All}

-- Two trees of one depth below 64, each over a store of its own that refuses no write and that can
-- be opened again with the leaves and the hasher of the tree, that hold the same leaves and have
-- the same hasher: every sequence of calls gives the same answers over both.
pub run-agree :
    {S S' : Type 0} ⦃st : Store S⦄ ⦃st' : Store S'⦄ (laws : StoreLaws st) (laws' : StoreLaws st')
    (depth : ℕ) (hasher : Hasher) (small : depth < 64) (steady : ¬ laws.Refuses)
    (steady' : ¬ laws'.Refuses) (again : MerkleTree S → Run (MerkleTree S))
    (again' : MerkleTree S' → Run (MerkleTree S')) (t : MerkleTree S) (t' : MerkleTree S')
    (xs : List Node) (calls : List Call)
    → Reopens laws depth hasher again
    → Reopens laws' depth hasher again'
    → Serves laws depth hasher t xs
    → Serves laws' depth hasher t' xs
    → All IsCall calls
    → (run again depth calls t).1 ≡ (run again' depth calls t').1
run-agree laws laws' depth hasher small steady steady' again again' t t' xs calls reopens reopens' s
      s' good =
    let (_, here, _) = run-replay laws depth hasher steady again small reopens calls t xs s good in
    let (_, there, _) =
      run-replay laws' depth hasher steady' again' small reopens' calls t' xs s' good in
    ap (λ r. r.1) here ∙ sym (ap (λ r. r.1) there)
