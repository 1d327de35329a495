-- ===== src/Tree/Fetch.antt =====
-- src/tree.rs: how `add_leaves` reads the stored left partners, all in one call of `get`.
pub mod Partners
use rs_merkle_tree.Base.{ℕ, zero, suc, ◌-◌, List, [], ◌∷◌, Option, ◌==◌, bit_and, if◌then◌else◌}
use rs_merkle_tree.Run.{Run, ok, ◌>>=◌, assign, unwrap_or}
use rs_merkle_tree.Node.{Node}
use rs_merkle_tree.Tree.{Zeros, zeros_index, shr64, as_u32}

-- The first `fetch_len` entries of `fetch_levels` and `fetch_indices`, for `rounds` levels from
-- `level` on. Each level adds one entry at most, so the arrays of `DEPTH` entries hold them.
unfoldable pub fetch_list : ℕ → ℕ → ℕ → List ℕ × List ℕ
fetch_list zero level num_leaves = ([], [])
fetch_list (suc rounds) level num_leaves =
    let (levels, indices) = fetch_list rounds (suc level) num_leaves in
    let start = shr64 num_leaves level in
    if bit_and start 1 == 1
    then (as_u32 level ∷ levels, (start - 1) ∷ indices)
    else (levels, indices)

-- `left_partners[level] = node.unwrap_or(self.zeros[level])`, for each node that was fetched.
unfoldable pub fill_partners : ℕ → Zeros → List ℕ → List (Option Node) → List Node → Run (List Node)
fill_partners depth zeros (level ∷ levels) (node ∷ nodes) partners = do
  zero_at ← zeros_index depth zeros level
  partners' ← assign partners level (unwrap_or node zero_at)
  fill_partners depth zeros levels nodes partners'
fill_partners depth zeros _ _ partners = ok partners
