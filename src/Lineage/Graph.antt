-- ===== src/Lineage/Graph.antt =====
-- services/lineage-service/app/services/lineage_service.py: `graph`, the recursive query that walks the
-- lineage of a dataset. The collation of the database, by which names are ordered, is an argument.
use dhp.Prelude.{
  ℕ, zero, suc, String, Bool, true, false, ◌&&◌, ◌||◌, Option, none, some, List, [], ◌∷◌, ◌++◌, map,
  str_eq, if◌then◌else◌, ltb, ◌==◌, min, keep,
}
use dhp.Prelude.Members.{flat_map}
use dhp.Lineage.{LineageDataset, Edge, LineageNode, Lineage}

abbrev pub run_of : Edge → String
run_of e = e.run_id

abbrev pub dataset_of : Edge → String
dataset_of e = e.dataset_id

abbrev pub node_at : ℕ → LineageDataset → LineageNode
node_at depth d = record { namespace = d.namespace; name = d.name; depth = depth }

-- One step of the walk: the joins over the edges `near` the dataset, the edges `far` of the same runs
-- and the datasets of those.
module _ (near far : List Edge) (datasets : List LineageDataset) where
  abbrev pub step : LineageDataset → List LineageDataset
  step d =
      flat_map
        (λ e.
          flat_map (λ f. keep (λ x. str_eq x.dataset_id f.dataset_id) datasets)
            (keep (λ f. str_eq f.run_id e.run_id) far))
        (keep (λ e. str_eq e.dataset_id d.dataset_id) near)

  -- The rows of `walk` from a depth on, with the number of steps that `max_depth` leaves.
  abbrev pub walk : ℕ → ℕ → List LineageDataset → List LineageNode
  walk zero depth rows = map (node_at depth) rows
  walk (suc n) depth rows = map (node_at depth) rows ++ walk n (suc depth) (flat_map step rows)

abbrev pub same_name : LineageNode → LineageNode → Bool
same_name a b = str_eq a.namespace b.namespace && str_eq a.name b.name

abbrev pub same_node : LineageNode → LineageNode → Bool
same_node a b = same_name a b && a.depth == b.depth

-- `MIN(depth)` in the group of a row.
abbrev pub min_depth : LineageNode → List LineageNode → ℕ
min_depth a [] = a.depth
min_depth a (b ∷ rows) = if same_name a b then min b.depth (min_depth a rows) else min_depth a rows

-- `SELECT DISTINCT`
abbrev pub distinct : List LineageNode → List LineageNode
distinct [] = []
distinct (a ∷ rows) =
    let rest = distinct rows in a ∷ keep (λ b. if same_node b a then false else true) rest

abbrev pub with_min : List LineageNode → LineageNode → LineageNode
with_min rows a = record a { depth = min_depth a rows }

-- `GROUP BY namespace, name`
abbrev pub grouped : List LineageNode → List LineageNode
grouped rows = distinct (map (with_min rows) rows)

module _ (le : String → String → Bool) where
  abbrev pub precedes : LineageNode → LineageNode → Bool
  precedes a b =
      ltb a.depth b.depth
      || a.depth == b.depth
        && (if str_eq a.namespace b.namespace then le a.name b.name else le a.namespace b.namespace)

  abbrev pub insert : LineageNode → List LineageNode → List LineageNode
  insert a [] = a ∷ []
  insert a (b ∷ rows) = let rest = insert a rows in if precedes a b then a ∷ b ∷ rows else b ∷ rest

  -- `ORDER BY depth, namespace, name`
  abbrev pub ordered : List LineageNode → List LineageNode
  ordered [] = []
  ordered (a ∷ rows) = insert a (ordered rows)

  abbrev pub query :
      List Edge → List Edge → List LineageDataset → String → String → ℕ → List LineageNode
  query near far datasets ns name max_depth =
      let roots = keep (λ d. str_eq d.namespace ns && str_eq d.name name) datasets in
      let rows = walk near far datasets max_depth 0 roots in
      ordered (grouped (keep (λ a. ltb 0 a.depth) rows))

  -- `graph`; `none` where the direction raises.
  unfoldable pub graph : String → String → String → ℕ → Lineage → Option (List LineageNode)
  graph ns name direction max_depth l =
      if str_eq direction "upstream"
      then some (query l.outputs l.inputs l.datasets ns name max_depth)
      else if str_eq direction "downstream"
      then some (query l.inputs l.outputs l.datasets ns name max_depth)
      else none
