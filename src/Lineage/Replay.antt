-- ===== src/Lineage/Replay.antt =====
-- An event that is ingested twice: OpenLineage emitters send an event again when they time out.
use dhp.Prelude.{
  String, some, List, [], ◌∷◌, ◌++◌, map, ◌≡◌, inl, inr, refl, ◌∙◌, arith, eq_iff, eq_refl, All,
  All-imp, Option-cases, subst,
}
use dhp.Prelude.Dict.{DistinctKeys, merge-DistinctKeys, merge_twice, merge_self}
use dhp.Prelude.Rows.{find, save, save-find, find-save, find-append, key-find, find_found}
use dhp.Lineage.{DatasetRef, OpenLineageEvent, LineageRun, LineageDataset, Edge, Lineage}
use dhp.Lineage.Service.{
  Runtime, run_id_of, link_all, merged_facets, new_run, updated_run, upsert_run, ingest,
}
use dhp.Lineage.Datasets.{identity}
use dhp.Lineage.Integrity.{IsValidLineage}
use dhp.Lineage.Recorded.{Recorded, Stays, Recorded-Stays, link_all-Recorded, link_all_again}

-- The second update of a run by one event changes nothing.
module _ (py : Runtime) (e : OpenLineageEvent) (keys : DistinctKeys e.run.facets) where
  facets_distinct : DistinctKeys (merged_facets py e)
  facets_distinct = merge-DistinctKeys e.run.facets e.job.facets keys

  updated_run_new : updated_run py e (new_run py e) ≡ new_run py e
  updated_run_new = let same = merge_self (merged_facets py e) facets_distinct in ground arith

  updated_run_twice : (r : LineageRun) → updated_run py e (updated_run py e r) ≡ updated_run py e r
  updated_run_twice r =
      let same = merge_twice r.facets (merged_facets py e) facets_distinct in ground arith

  settled :
      (runs : List LineageRun) (r : LineageRun)
      → find run_id_of e.run.run_id runs ≡ some r
      → updated_run py e r ≡ r
      → upsert_run py e runs ≡ runs
  settled runs r found same =
      rw (found, upsert_run, same)
        (save-find run_id_of r runs (find_found run_id_of e.run.run_id runs found))

  upsert_run_twice :
      (runs : List LineageRun) → upsert_run py e (upsert_run py e runs) ≡ upsert_run py e runs
  upsert_run_twice runs = elim (Option-cases (find run_id_of e.run.run_id runs)) [
    | inl missing ↦
        let after : upsert_run py e runs ≡ runs ++ new_run py e ∷ [] = rw (missing, upsert_run) in
        rw after (
          settled (runs ++ new_run py e ∷ []) (new_run py e)
            (ground
              (arith, find-append run_id_of e.run.run_id (new_run py e) runs, eq_refl e.run.run_id))
            updated_run_new)
    | inr (r, found) ↦
        let u = updated_run py e r in
        let after : upsert_run py e runs ≡ save run_id_of u runs = rw (found, upsert_run) in
        rw after (
          settled (save run_id_of u runs) u
            (ground (
              arith,
              find-save run_id_of e.run.run_id u runs,
              key-find run_id_of e.run.run_id runs {r = r},
              eq_iff r.run_id e.run.run_id,
            ))
            (updated_run_twice r))
  ]

-- Ingesting an event again, with whatever ids drawn, always succeeds and leaves the run, both tables of
-- edges and the ids and names of the datasets as the first time: only the facets of a dataset may be
-- concatenated once more. This holds from valid tables, for an event whose run facets have distinct
-- keys.
pub ingest_again :
    (py : Runtime) (draw draw' : DatasetRef → String) (e : OpenLineageEvent) (l : Lineage)
    {l' : Lineage}
    → DistinctKeys e.run.facets
    → IsValidLineage l
    → ingest py draw e l ≡ some l'
    → (l'' : Lineage) × (ingest py draw' e l' ≡ some l'')
      × (l''.runs ≡ l'.runs)
      × (l''.inputs ≡ l'.inputs)
      × (l''.outputs ≡ l'.outputs)
      × (map identity l''.datasets ≡ map identity l'.datasets)
unfolding ingest
ingest_again py draw draw' e l {l'} keys v done =
    elim (Option-cases (link_all py draw e.run.run_id e.inputs l.datasets l.inputs)) [
      | inl clash ↦ absurd (ground arith)
      | inr ((ds1, ins), first) ↦
          elim (Option-cases (link_all py draw e.run.run_id e.outputs ds1 l.outputs)) [
            | inl clash ↦ absurd (ground arith)
            | inr ((ds2, outs), second) ↦
                let after : record {
                  runs = upsert_run py e l.runs;
                  datasets = ds2;
                  inputs = ins;
                  outputs = outs;
                }
                    ≡ l' =
                  ground arith in
                subst
                  (λ (m : Lineage).
                    (l'' : Lineage) × (ingest py draw' e m ≡ some l'')
                    × (l''.runs ≡ m.runs)
                    × (l''.inputs ≡ m.inputs)
                    × (l''.outputs ≡ m.outputs)
                    × (map identity l''.datasets ≡ map identity m.datasets))
                  after (replayed ds1 ds2 ins outs first second)
          ]
    ]
  where
    replayed :
        (ds1 ds2 : List LineageDataset) (ins outs : List Edge)
        → link_all py draw e.run.run_id e.inputs l.datasets l.inputs ≡ some (ds1, ins)
        → link_all py draw e.run.run_id e.outputs ds1 l.outputs ≡ some (ds2, outs)
        → let m : Lineage = record {
          runs = upsert_run py e l.runs;
          datasets = ds2;
          inputs = ins;
          outputs = outs;
        } in
          (l'' : Lineage) × (ingest py draw' e m ≡ some l'')
          × (l''.runs ≡ m.runs)
          × (l''.inputs ≡ m.inputs)
          × (l''.outputs ≡ m.outputs)
          × (map identity l''.datasets ≡ map identity m.datasets)
    replayed ds1 ds2 ins outs first second =
        let r = e.run.run_id in
        let (a1, stays1, all1) =
          link_all-Recorded py draw r e.inputs l.datasets l.inputs v.datasets first in
        let (a2, stays2, all2) = link_all-Recorded py draw r e.outputs ds1 l.outputs a1 second in
        let kept : Stays (map identity ds1) (map identity ds2) ins ins = record {
          names = stays2.names;
          edges = λ r d h. h;
        } in
        let ins_all =
          All-imp (Recorded r (map identity ds1) ins) (Recorded r (map identity ds2) ins) e.inputs
            (λ ref. Recorded-Stays r (map identity ds1) (map identity ds2) ins ins ref kept) all1 in
        let (ds3, third, same3) = link_all_again py draw' r e.inputs ds2 ins a2 ins_all in
        let outs_all : All (Recorded r (map identity ds3) outs) e.outputs = rw same3 all2 in
        let (ds4, fourth, same4) =
          link_all_again py draw' r e.outputs ds3 outs (rw same3 a2) outs_all in
        let runs = upsert_run_twice py e keys l.runs in
        (
          record {
            runs = upsert_run py e (upsert_run py e l.runs);
            datasets = ds4;
            inputs = ins;
            outputs = outs;
          },
          ground arith,
          runs,
          refl,
          refl,
          same4 ∙ same3,
        )
