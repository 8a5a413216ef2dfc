-- ===== src/Lineage/Integrity.antt =====
-- The keys and the foreign keys of the lineage tables under `ingest`.
use dhp.Prelude.{
  String, true, none, some, List, [], ◌∷◌, map, ◌≡◌, inl, inr, refl, arith, eq_iff, eq_refl,
  is_some, All-imp, Option-cases, subst,
}
use dhp.Prelude.Rows.{
  Distinct, find, find-save, find-append, map-save, add-Distinct, key-find, find_found,
}
use dhp.Lineage.{DatasetRef, OpenLineageEvent, LineageRun, Edge, Lineage}
use dhp.Lineage.Service.{Runtime, run_id_of, link_all, new_run, updated_run, upsert_run, ingest}
use dhp.Lineage.Datasets.{Identity, identity, AreDatasets}
use dhp.Lineage.Edges.{Refers, AreEdges, Persist-AreEdges, link_all-AreEdges}

pub record IsValidLineage (l : Lineage) : Type 0 where
  pub runs : Distinct (map run_id_of l.runs)
  pub datasets : AreDatasets (map identity l.datasets)
  pub inputs : AreEdges l.runs (map identity l.datasets) l.inputs
  pub outputs : AreEdges l.runs (map identity l.datasets) l.outputs

module _ (py : Runtime) (e : OpenLineageEvent) (runs : List LineageRun)
    (distinct : Distinct (map run_id_of runs)) where
  upsert_run-Distinct : Distinct (map run_id_of (upsert_run py e runs))
  upsert_run-Distinct = elim (Option-cases (find run_id_of e.run.run_id runs)) [
    | inl missing ↦
        let added = add-Distinct run_id_of (new_run py e) runs missing distinct in
        rw (missing, upsert_run) added
    | inr (r, found) ↦
        let kept =
          map-save run_id_of run_id_of (updated_run py e r) runs {old = r}
            (find_found run_id_of e.run.run_id runs found) refl in
        rw (found, upsert_run, kept) distinct
  ]

  -- The event's run is there afterwards, and so is every run that was.
  upsert_run-find :
      (is_some (find run_id_of e.run.run_id (upsert_run py e runs)) ≡ true)
      × ((i : String)
          → is_some (find run_id_of i runs) ≡ true
          → is_some (find run_id_of i (upsert_run py e runs)) ≡ true)
  upsert_run-find = elim (Option-cases (find run_id_of e.run.run_id runs)) [
    | inl missing ↦
        rw (missing, upsert_run)
          (
            ground (
              arith,
              find-append run_id_of e.run.run_id (new_run py e) runs,
              eq_refl e.run.run_id,
            ),
            λ i h. ground (arith, find-append run_id_of i (new_run py e) runs),
          )
    | inr (r, found) ↦
        rw (found, upsert_run)
          (
            ground (
              arith,
              find-save run_id_of e.run.run_id (updated_run py e r) runs,
              key-find run_id_of e.run.run_id runs {r = r},
              eq_iff r.run_id e.run.run_id,
            ),
            λ i h. ground (arith, find-save run_id_of i (updated_run py e r) runs),
          )
  ]

  upsert_run-AreEdges :
      (ks : List Identity) (es : List Edge)
      → AreEdges runs ks es
      → AreEdges (upsert_run py e runs) ks es
  upsert_run-AreEdges ks es a = record {
    distinct = a.distinct;
    refer =
        All-imp (Refers runs ks) (Refers (upsert_run py e runs) ks) es
          (λ f h. (upsert_run-find.1 f.run_id h.0, h.1)) a.refer;
  }

ingest-IsValidLineage :
    (py : Runtime) (draw : DatasetRef → String) (e : OpenLineageEvent) (l : Lineage) {l' : Lineage}
    → IsValidLineage l
    → ingest py draw e l ≡ some l'
    → IsValidLineage l'
unfolding ingest
ingest-IsValidLineage py draw e l {l'} v done =
    let runs = upsert_run py e l.runs in
    let (run, _) = upsert_run-find py e l.runs v.runs in
    let ins = upsert_run-AreEdges py e l.runs v.runs (map identity l.datasets) l.inputs v.inputs in
    let outs =
      upsert_run-AreEdges py e l.runs v.runs (map identity l.datasets) l.outputs v.outputs in
    elim (Option-cases (link_all py draw e.run.run_id e.inputs l.datasets l.inputs)) [
      | inl clash ↦ absurd (ground arith)
      | inr ((ds, es), first) ↦
          let (a, b, keep) =
            link_all-AreEdges runs py draw e.run.run_id run e.inputs l.datasets l.inputs v.datasets
              ins first in
          elim (Option-cases (link_all py draw e.run.run_id e.outputs ds l.outputs)) [
            | inl clash ↦ absurd (ground arith)
            | inr ((ds', fs), second) ↦
                let (a', b', keep') =
                  link_all-AreEdges runs py draw e.run.run_id run e.outputs ds l.outputs a
                    (Persist-AreEdges runs (map identity l.datasets) (map identity ds) l.outputs
                      keep outs)
                    second in
                let after : record { runs = runs; datasets = ds'; inputs = es; outputs = fs } ≡ l' =
                  ground arith in
                subst IsValidLineage after (record {
                  runs = upsert_run-Distinct py e l.runs v.runs;
                  datasets = a';
                  inputs = Persist-AreEdges runs (map identity ds) (map identity ds') es keep' b;
                  outputs = b';
                })
          ]
    ]

-- Events one after the other, each with the ids that are drawn; one that raises changes nothing.
unfoldable pub ingest_all :
    Runtime → List ((DatasetRef → String) × OpenLineageEvent) → Lineage → Lineage
ingest_all py [] l = l
ingest_all py ((draw, e) ∷ rest) l =
    ingest_all py rest (elim (ingest py draw e l) [ none ↦ l | some l' ↦ l' ])

-- Whatever events are ingested, whatever ids are drawn for new datasets, from tables with distinct run
-- ids, distinct dataset ids, distinct names of datasets, no edge twice, and edges of existing runs and
-- datasets alone, the tables stay so; a drawn id that is in use raises and changes nothing.
pub ingest_all-IsValidLineage :
    (py : Runtime) (events : List ((DatasetRef → String) × OpenLineageEvent)) (l : Lineage)
    → IsValidLineage l
    → IsValidLineage (ingest_all py events l)
unfolding ingest_all
ingest_all-IsValidLineage py [] l v = v
ingest_all-IsValidLineage py ((draw, e) ∷ rest) l v = elim (Option-cases (ingest py draw e l)) [
  | inl clash ↦ rw clash (ingest_all-IsValidLineage py rest l v)
  | inr (l', done) ↦
      rw done (ingest_all-IsValidLineage py rest l' (ingest-IsValidLineage py draw e l v done))
]
