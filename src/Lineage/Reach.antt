-- ===== src/Lineage/Reach.antt =====
-- The lineage query against the graph of the datasets: what is reached in how many hops.
use dhp.Prelude.{
  ℕ, ◌≤◌, String, Bool, ◌&&◌, ◌||◌, is_some, some, List, ◌≡◌, inl, inr, ◌↔◌, refl, ◌∙◌, ap, subst,
  arith, str_eq, eq_iff, ltb, keep, Bool-cases,
}
use dhp.Prelude.Members.{Memᴰ-keep}
use mathlib.Core.List.{Memᴰ}
use dhp.Lineage.{LineageDataset, Edge, LineageNode, Lineage}
use dhp.Lineage.Nearest.{at_depth, IsNearest, grouped-IsNearest, ordered_mem}
use dhp.Lineage.Graph.{node_at, walk, grouped, query, graph}
use dhp.Lineage.Walk.{Reaches, levels-Reaches, walk-levels}

-- The datasets of a name.
abbrev IsRoot : List LineageDataset → String → String → LineageDataset → Type 0
IsRoot datasets ns name d = Memᴰ d datasets × (d.namespace ≡ ns) × (d.name ≡ name)

module _ (near far : List Edge) (datasets : List LineageDataset) (ns name : String) where
  -- A dataset named as the node is so many hops from the root.
  abbrev IsReached : LineageNode → Type 0
  IsReached a =
      (d : LineageDataset) × Reaches near far datasets (IsRoot datasets ns name) a.depth d
      × (node_at a.depth d ≡ a)

  -- The node lies within `max_depth` hops, at the least number of hops, at least one, that reach it.
  pub record IsAnswer (max_depth : ℕ) (a : LineageNode) : Type 0 where
    some_hop : 1 ≤ a.depth
    in_range : a.depth ≤ max_depth
    reached : IsReached a
    least : (k : ℕ) → 1 ≤ k → IsReached (at_depth a k) → a.depth ≤ k

  module _ (max_depth : ℕ) where
    abbrev roots : List LineageDataset
    roots = keep (λ d. str_eq d.namespace ns && str_eq d.name name) datasets

    roots-IsRoot : (d : LineageDataset) → Memᴰ d roots ↔ IsRoot datasets ns name d
    roots-IsRoot d = (
      λ m.
          let (there, named) = (Memᴰ-keep _ d datasets).0 m in
          (there, ground (arith, eq_iff d.namespace ns), ground (arith, eq_iff d.name name)),
      λ (there, same, same').
          (Memᴰ-keep _ d datasets).1
            (there, ground (arith, eq_iff d.namespace ns, eq_iff d.name name)),
    )

    abbrev rows : List LineageNode
    rows = keep (λ a. ltb 0 a.depth) (walk near far datasets max_depth 0 roots)

    rows-IsReached :
        (a : LineageNode) → Memᴰ a rows ↔ ((1 ≤ a.depth) × (a.depth ≤ max_depth) × IsReached a)
    rows-IsReached a = (
      λ m.
          let (walked, deep) = (Memᴰ-keep _ a (walk near far datasets max_depth 0 roots)).0 m in
          let (k, le, d, level, e) = (walk-levels near far datasets max_depth 0 roots a).0 walked in
          let same : k ≡ a.depth = omega (arith, ap (λ (c : LineageNode). c.depth) e) in
          let r =
            (levels-Reaches near far datasets k roots (IsRoot datasets ns name) roots-IsRoot d).0
              level in
          (
            ground arith,
            omega arith,
            (
              d,
              subst (λ i. Reaches near far datasets (IsRoot datasets ns name) i d) same r,
              ap (λ i. node_at i d) (omega arith) ∙ e,
            ),
          ),
      λ (some_hop, in_range, reached).
          let (d, r, e) = reached in
          let level =
            (levels-Reaches near far datasets a.depth roots (IsRoot datasets ns name) roots-IsRoot
                d).1
              r in
          (Memᴰ-keep _ a (walk near far datasets max_depth 0 roots)).1 (
            (walk-levels near far datasets max_depth 0 roots a).1
                (a.depth, in_range, d, level, ap (λ i. node_at i d) (omega arith) ∙ e),
            ground arith,
          ),
    )

    rows-IsAnswer : (a : LineageNode) → IsNearest rows a ↔ IsAnswer max_depth a
    rows-IsAnswer a = (
      λ (m, least).
          let (some_hop, in_range, reached) = (rows-IsReached a).0 m in
          record {
            some_hop = some_hop;
            in_range = in_range;
            reached = reached;
            least = λ k hop there. elim (Bool-cases (ltb max_depth k)) [
              | inl far ↦ ground arith
              | inr close ↦ least k ((rows-IsReached (at_depth a k)).1 (hop, ground arith, there))
            ];
          },
      λ h. (
        (rows-IsReached a).1 (h.some_hop, h.in_range, h.reached),
        λ k m. let (hop, _, there) = (rows-IsReached (at_depth a k)).0 m in h.least k hop there,
      ),
    )

    query-IsAnswer :
        (le : String → String → Bool) (a : LineageNode)
        → Memᴰ a (query le near far datasets ns name max_depth) ↔ IsAnswer max_depth a
    query-IsAnswer le a =
        let kept = ordered_mem le a (grouped rows) in
        let nearest = grouped-IsNearest rows a in
        let answer = rows-IsAnswer a in
        (λ m. answer.0 (nearest.0 (kept.0 m)), λ h. kept.1 (nearest.1 (answer.1 h)))

-- `graph` answers upstream with exactly the datasets that go back from the outputs of runs to their
-- inputs, and downstream the other way round, within `max_depth` hops and each at its least number of
-- hops, which is at least one. It answers these two directions alone and raises for any other.
pub graph_answers :
    (le : String → String → Bool) (ns name : String) (max_depth : ℕ) (l : Lineage)
    → ((nodes : List LineageNode) × (graph le ns name "upstream" max_depth l ≡ some nodes)
        × ((a : LineageNode)
            → Memᴰ a nodes ↔ IsAnswer l.outputs l.inputs l.datasets ns name max_depth a))
      × ((nodes : List LineageNode) × (graph le ns name "downstream" max_depth l ≡ some nodes)
          × ((a : LineageNode)
              → Memᴰ a nodes ↔ IsAnswer l.inputs l.outputs l.datasets ns name max_depth a))
      × ((direction : String)
          → is_some (graph le ns name direction max_depth l)
            ≡ (str_eq direction "upstream" || str_eq direction "downstream"))
unfolding graph
graph_answers le ns name max_depth l = (
  (
    query le l.outputs l.inputs l.datasets ns name max_depth,
    refl,
    query-IsAnswer l.outputs l.inputs l.datasets ns name max_depth le,
  ),
  (
    query le l.inputs l.outputs l.datasets ns name max_depth,
    refl,
    query-IsAnswer l.inputs l.outputs l.datasets ns name max_depth le,
  ),
  λ direction. ground arith,
)
