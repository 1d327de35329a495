-- ===== src/Node/Random.antt =====
-- src/node.rs: `Node::random`. The generator of the rand crate is a parameter, with the method that
-- fills a slice.
use rs_merkle_tree.Node.{Node, IsNode}
use rs_merkle_tree.Base.{ℕ, ◌<◌, ◌≡◌, List, length, replicate, All}

module _ {R : Type 0} (fill_bytes : R → List ℕ → R × List ℕ) where
  -- `Node::random`, with the state of the generator before and after.
  unfoldable random : R → R × Node
  random rng =
      let (rng', bytes) = fill_bytes rng (replicate 32 0) in (rng', record { bytes = bytes })

  -- Where the generator fills each place with a byte, the result is a node.
  random-IsNode :
      ((rng : R) (bytes : List ℕ)
        → (length (fill_bytes rng bytes).1 ≡ length bytes)
          × All (λ b. b < 256) (fill_bytes rng bytes).1)
      → (rng : R) → IsNode (random rng).1
  unfolding random
  random-IsNode fills rng = fills rng (replicate 32 0)
