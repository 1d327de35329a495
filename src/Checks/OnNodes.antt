-- ===== src/Checks/OnNodes.antt =====
-- `test_node` of src/node.rs.
use Prim.Native.String.{String}
use rs_merkle_tree.Node.Hex.{to_node, code_points, try_from, display}
use rs_merkle_tree.Node.{zero_node, node_eq}
use rs_merkle_tree.Run.{◌>>=◌, ◌>>◌, Run, ok, check}
use rs_merkle_tree.Base.{ℕ, ◌≡◌, refl, List, [], ◌∷◌, replicate, list_eq}

-- A text, of which the test expects the bytes.
abbrev digest : String
digest = "0x760bde345debf3075c7fc0bcd2134e16ce5fc1a13adaa66ec6452a391f70595c"

abbrev digest_bytes : List ℕ
digest_bytes =
    118 ∷ 11 ∷ 222 ∷ 52 ∷ 93 ∷ 235 ∷ 243 ∷ 7 ∷ 92 ∷ 127 ∷ 192 ∷ 188 ∷ 210 ∷ 19 ∷ 78 ∷ 22 ∷ 206 ∷ 95
    ∷ 193 ∷ 161 ∷ 58 ∷ 218 ∷ 166 ∷ 110 ∷ 198 ∷ 69 ∷ 42 ∷ 57 ∷ 31 ∷ 112 ∷ 89 ∷ 92 ∷ []

-- `test_node`
unfoldable pub node_texts : Run (Unit {0})
node_texts = do
  short ← to_node (code_points "0x1230000000000000000000000000000000000000000000000000000000000000")
  check (node_eq short (record { bytes = 18 ∷ 48 ∷ replicate 30 0 }))
  check (node_eq zero_node (record { bytes = replicate 32 0 }))
  n ← to_node (code_points digest)
  check (list_eq (display n) (code_points digest))
  m ← to_node (code_points digest)
  check (node_eq (record { bytes = digest_bytes }) m)

-- The test passes.
node_texts_ok : node_texts ≡ ok tt
unfolding node_texts to_node try_from display node_eq
node_texts_ok = refl
