-- ===== src/Lineage/Edges.antt =====
-- The edges that `link` leaves: distinct, and between runs and datasets that exist.
use dhp.Prelude.{
  String, true, false, ◌&&◌, ◌||◌, some, List, [], ◌∷◌, ◌++◌, map, ◌≡◌, inl, inr, refl, arith,
  str_eq, eq_iff, eq_refl, is_some, All, All-imp, All-append, Option-cases, Bool-cases,
}
use dhp.Prelude.Rows.{find, find-append}
use dhp.Lineage.{DatasetRef, LineageRun, LineageDataset, Edge}
use dhp.Lineage.Service.{Runtime, run_id_of, upsert_dataset, has_edge, link, link_all}
use dhp.Lineage.Datasets.{
  Identity, identity, id_of, known, AreDatasets, IsUpserted, upsert_dataset-IsUpserted,
  upserted-AreDatasets,
}

-- `UNIQUE (run_id, dataset_id)`
abbrev pub DistinctEdges : List Edge → Type 0
DistinctEdges [] = Unit
DistinctEdges (e ∷ es) = (has_edge e.run_id e.dataset_id es ≡ false) × DistinctEdges es

-- The edge's run and its dataset exist.
abbrev pub Refers : List LineageRun → List Identity → Edge → Type 0
Refers runs ks e =
    (is_some (find run_id_of e.run_id runs) ≡ true) × (is_some (find id_of e.dataset_id ks) ≡ true)

pub record AreEdges (runs : List LineageRun) (ks : List Identity) (es : List Edge) : Type 0 where
  pub distinct : DistinctEdges es
  pub refer : All (Refers runs ks) es

-- Every dataset that was there is there still.
abbrev pub Persist : List Identity → List Identity → Type 0
Persist ks ks' = (i : String) → is_some (find id_of i ks) ≡ true → is_some (find id_of i ks') ≡ true

find-known :
    (ns n : String) (ks : List Identity) {i : String}
    → known ns n ks ≡ some i
    → is_some (find id_of i ks) ≡ true
find-known ns n [] e = cc
find-known ns n (k ∷ ks) {i} e = ground (arith, find-known ns n ks {i = i}, eq_iff k.0 i)

pub upserted-Persist :
    (drawn : String) (ref : DatasetRef) {i : String} {ks ks' : List Identity}
    → IsUpserted drawn ref i ks ks'
    → Persist ks ks' × (is_some (find id_of i ks') ≡ true)
upserted-Persist drawn ref {i} {ks} {ks'} (inl (old, same)) =
    rw same (λ j h. h, find-known ref.namespace ref.name ks old)
upserted-Persist drawn ref {i} {ks} {ks'} (inr (free, fresh, e, more)) =
    let row : Identity = (drawn, ref.namespace, ref.name) in
    rw (more, e)
      (
        λ j h. ground (arith, find-append id_of j row ks),
        ground (arith, find-append id_of drawn row ks, eq_refl drawn),
      )

pub has_edge-append :
    (r d : String) (e : Edge) (es : List Edge)
    → has_edge r d (es ++ e ∷ [])
      ≡ (has_edge r d es || (str_eq e.run_id r && str_eq e.dataset_id d))
has_edge-append r d e [] = ground arith
has_edge-append r d e (f ∷ es) = ground (arith, has_edge-append r d e es)

append-DistinctEdges :
    (e : Edge) (es : List Edge)
    → has_edge e.run_id e.dataset_id es ≡ false
    → DistinctEdges es
    → DistinctEdges (es ++ e ∷ [])
append-DistinctEdges e [] h d = (refl, tt)
append-DistinctEdges e (f ∷ es) h d = ground (
  arith,
  append-DistinctEdges e es,
  has_edge-append f.run_id f.dataset_id e es,
  eq_iff e.run_id f.run_id,
  eq_iff f.run_id e.run_id,
  eq_iff e.dataset_id f.dataset_id,
  eq_iff f.dataset_id e.dataset_id,
)

module _ (runs : List LineageRun) where
  pub Persist-AreEdges :
      (ks ks' : List Identity) (es : List Edge)
      → Persist ks ks'
      → AreEdges runs ks es
      → AreEdges runs ks' es
  Persist-AreEdges ks ks' es keep a = record {
    distinct = a.distinct;
    refer =
        All-imp (Refers runs ks) (Refers runs ks') es (λ e h. (h.0, keep e.dataset_id h.1)) a.refer;
  }

  link-AreEdges :
      (r d : String) (ks : List Identity) (es : List Edge)
      → is_some (find run_id_of r runs) ≡ true
      → is_some (find id_of d ks) ≡ true
      → AreEdges runs ks es
      → AreEdges runs ks (link r d es)
  unfolding link
  link-AreEdges r d ks es run dataset a = elim (Bool-cases (has_edge r d es)) [
    | inl there ↦ rw there a
    | inr absent ↦
        let e : Edge = record { run_id = r; dataset_id = d } in
        rw absent (record {
          distinct = append-DistinctEdges e es absent a.distinct;
          refer = All-append (Refers runs ks) es (e ∷ []) a.refer ((run, dataset), tt);
        })
  ]

  -- What the loop over a list of datasets keeps, for both tables of edges.
  module _ (py : Runtime) (draw : DatasetRef → String) (r : String)
      (run : is_some (find run_id_of r runs) ≡ true) where
    pub link_all-AreEdges :
        (refs : List DatasetRef) (ds : List LineageDataset) (es : List Edge)
        {ds' : List LineageDataset} {es' : List Edge}
        → AreDatasets (map identity ds)
        → AreEdges runs (map identity ds) es
        → link_all py draw r refs ds es ≡ some (ds', es')
        → AreDatasets (map identity ds')
          × AreEdges runs (map identity ds') es'
          × Persist (map identity ds) (map identity ds')
    unfolding link_all
    link_all-AreEdges [] ds es {ds'} {es'} a b e =
        let same : ds ≡ ds' = ground arith in
        let same' : es ≡ es' = ground arith in rw (← same, ← same') (a, b, λ i h. h)
    link_all-AreEdges (ref ∷ refs) ds es {ds'} {es'} a b e =
        elim (Option-cases (upsert_dataset py (draw ref) ref ds)) [
          | inl clash ↦ absurd (ground arith)
          | inr ((d, ds1), done) ↦
              let up = upsert_dataset-IsUpserted py (draw ref) ref ds a done in
              let (keep, there) = upserted-Persist (draw ref) ref up in
              let b1 =
                link-AreEdges r d (map identity ds1) es run there
                  (Persist-AreEdges (map identity ds) (map identity ds1) es keep b) in
              let (a', b', keep') =
                link_all-AreEdges refs ds1 (link r d es) (upserted-AreDatasets (draw ref) ref a up)
                  b1 (ground arith) in
              (a', b', λ i h. keep' i (keep i h))
        ]
