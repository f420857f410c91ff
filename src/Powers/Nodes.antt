-- ===== src/Powers/Nodes.antt =====
-- Reading `nodes_` after a write.
use u_psu.Common.{ℕ, ◌≡◌, refl, some, ◌∷◌, [], List, arith, ◌==◌, if◌then◌else◌, ◌≢◌}
use u_psu.Common.Sets.{contains}
use u_psu.Powers.{PowersNode, NodeMap, at, insert, insert_sources, source_node}

pub at-insert :
    (p q : ℕ) (n : PowersNode) (m : NodeMap)
    → at (insert p n m) q ≡ (if p == q then some n else at m q)
unfolding at insert
at-insert p q n [] = refl
at-insert p q n ((k, v) ∷ m) = ground (arith, at-insert p q n m)

pub at-insert_self : (p : ℕ) (n : PowersNode) (m : NodeMap) → at (insert p n m) p ≡ some n
at-insert_self p n m = ground (arith, at-insert p p n m)

pub at-insert_ne : (p q : ℕ) (n : PowersNode) (m : NodeMap) → p ≢ q → at (insert p n m) q ≡ at m q
at-insert_ne p q n m h = ground (arith, at-insert p q n m)

pub at-insert_sources :
    (ss : List ℕ) (q : ℕ) (m : NodeMap)
    → at (insert_sources ss m) q ≡ (if contains ss q then some (source_node q) else at m q)
unfolding insert_sources
at-insert_sources [] q m = refl
at-insert_sources (s ∷ ss) q m =
    ground
      (arith, at-insert_sources ss q (insert s (source_node s) m), at-insert s q (source_node s) m)
