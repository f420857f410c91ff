-- ===== src/Powers.antt =====
-- PowersDag of common/apsu/powers.h and common/apsu/powers.cpp: how each power of the encrypted
-- query is a product of two lower ones. A `std::set` is the ascending list of its members and
-- `nodes_` an association list.
pub mod Nodes
pub mod Parents
pub mod Optimal
pub mod Loop
pub mod Steps
pub mod Configure
pub mod Validity
pub mod Stale
use u_psu.Common.{
  ℕ, ◌+◌, ◌≡◌, Bool, true, false, ◌&&◌, ◌||◌, not, Option, none, some, List, [], ◌∷◌, leb, ltb,
  ◌==◌, if◌then◌else◌, max, length, zero, suc,
}
use u_psu.Common.Options.{◌>>=◌}
use u_psu.Common.Sets.{contains, includes}
use u_psu.Common.Words.{add32, sub32}

-- `parents` are both 0 at a source.
pub record PowersNode : Type 0 where
  pub power : ℕ
  pub depth : ℕ
  pub parents : ℕ × ℕ

pub is_source : PowersNode → Bool
is_source n = (n.parents.0 == 0) && (n.parents.1 == 0)

abbrev pub NodeMap : Type 0
NodeMap = List (ℕ × PowersNode)

-- `nodes_.at(power)`: `none` is the out_of_range exception.
unfoldable pub at : NodeMap → ℕ → Option PowersNode
at [] p = none
at ((q, n) ∷ m) p = if q == p then some n else at m p

-- `nodes_[power] = node`
unfoldable pub insert : ℕ → PowersNode → NodeMap → NodeMap
insert p n [] = (p, n) ∷ []
insert p n ((q, k) ∷ m) = if q == p then (p, n) ∷ m else (q, k) ∷ insert p n m

pub record PowersDag : Type 0 where
  pub nodes : NodeMap
  pub configured : Bool
  pub targets : List ℕ
  pub depth : ℕ
  pub source_count : ℕ

-- `nodes_` is not among what the function clears.
unfoldable pub reset : PowersDag → PowersDag
reset d = record d { targets = []; depth = 0; source_count = 0; configured = false }

-- The variables optimal_depth, optimal_s1 and optimal_s2.
pub record Best : Type 0 where
  pub depth : ℕ
  pub s1 : ℕ
  pub s2 : ℕ

-- The rest of a round, once both parents' nodes are read.
unfoldable pub better : ℕ → ℕ → PowersNode → PowersNode → Best → Best
better s1 s2 n1 n2 b =
    let depth = add32 (max n1.depth n2.depth) 1 in
    if ltb depth b.depth then record { depth = depth; s1 = s1; s2 = s2 } else b

-- A round of the loop over the first parent, behind the `break`.
unfoldable pub consider : List ℕ → NodeMap → ℕ → ℕ → Best → Option Best
unfolding better at
consider targets nodes curr_power s1 b =
    let s2 = sub32 curr_power s1 in
    let reading = at nodes s1 >>= λ n1. at nodes s2 >>= λ n2. some (better s1 s2 n1 n2 b) in
    if not (contains targets s2) then some b else reading

unfoldable pub search_parents : List ℕ → NodeMap → ℕ → List ℕ → Best → Option Best
unfolding consider
search_parents targets nodes curr_power [] b = some b
search_parents targets nodes curr_power (s1 ∷ rest) b =
    if leb curr_power s1
    then some b
    else (consider targets nodes curr_power s1 b >>= search_parents targets nodes curr_power rest)

abbrev pub first_guess : ℕ → Best
first_guess curr_power = record { depth = sub32 curr_power 1; s1 = sub32 curr_power 1; s2 = 1 }

abbrev pub node_of : ℕ → Best → PowersNode
node_of p b = record { power = p; depth = b.depth; parents = (b.s1, b.s2) }

-- A round of the loop over the target powers; the state is `nodes_` with curr_depth.
unfoldable pub compute_power : List ℕ → List ℕ → ℕ → NodeMap × ℕ → Option (NodeMap × ℕ)
unfolding search_parents insert
compute_power sources targets p (nodes, depth) =
    let search = search_parents targets nodes p targets (first_guess p) in
    if contains sources p
    then some (nodes, depth)
    else (search >>= λ b. some (insert p (node_of p b) nodes, max depth b.depth))

unfoldable pub compute_powers : List ℕ → List ℕ → List ℕ → NodeMap × ℕ → Option (NodeMap × ℕ)
unfolding compute_power
compute_powers sources targets [] st = some st
compute_powers sources targets (p ∷ rest) st =
    compute_power sources targets p st >>= compute_powers sources targets rest

abbrev pub source_node : ℕ → PowersNode
source_node s = record { power = s; depth = 0; parents = (0, 0) }

unfoldable pub insert_sources : List ℕ → NodeMap → NodeMap
unfolding insert
insert_sources [] nodes = nodes
insert_sources (s ∷ rest) nodes = insert_sources rest (insert s (source_node s) nodes)

-- The three early returns of `configure`.
unfoldable pub accepts : List ℕ → List ℕ → Bool
accepts sources targets =
    not (contains sources 0 || not (contains sources 1))
    && (not (contains targets 0 || not (contains targets 1)) && includes targets sources)

-- The object and the result; `none` is an exception of `nodes_.at`.
unfoldable pub configure : PowersDag → List ℕ → List ℕ → Option (PowersDag × Bool)
unfolding reset accepts insert_sources compute_powers
configure dag sources targets =
    let d = reset dag in
    let computed = compute_powers sources targets targets (insert_sources sources d.nodes, 0) in
    if not (accepts sources targets)
    then some (d, false)
    else (computed >>= λ st. some (
      record {
        nodes = st.0;
        configured = true;
        targets = targets;
        depth = st.1;
        source_count = length sources;
      },
      true,
    ))

-- The nodes without parents, in the order of the map.
unfoldable pub collect_sources : NodeMap → List PowersNode
unfolding is_source
collect_sources [] = []
collect_sources ((q, n) ∷ m) = if is_source n then n ∷ collect_sources m else collect_sources m

-- `none` is the logic_error of a DAG that is not configured.
unfoldable pub source_nodes : PowersDag → Option (List PowersNode)
unfolding collect_sources
source_nodes d = if d.configured then some (collect_sources d.nodes) else none
