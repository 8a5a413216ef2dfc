-- ===== src/Lineage/Recorded.antt =====
-- The datasets of an event after it is ingested: each is there with its edge, and stays.
use dhp.Prelude.{
  String, true, ◌&&◌, ◌||◌, some, List, [], ◌∷◌, map, ◌≡◌, inl, inr, refl, ◌∙◌, arith, str_eq,
  eq_iff, eq_refl, All, Option-cases,
}
use dhp.Prelude.Rows.{save, map-save}
use dhp.Lineage.{DatasetRef, LineageDataset, Edge}
use dhp.Lineage.Service.{
  Runtime, dataset_id_of, find_dataset, upsert_dataset, has_edge, link, link_all,
}
use dhp.Lineage.Datasets.{
  Identity, identity, known, known-append, AreDatasets, IsUpserted, upsert_dataset-IsUpserted,
  upserted-AreDatasets, known-find_dataset, find_dataset-find,
}
use dhp.Lineage.Edges.{has_edge-append}

-- A dataset that is there with its edge.
abbrev pub Recorded : String → List Identity → List Edge → DatasetRef → Type 0
Recorded r ks es ref =
    (i : String) × (known ref.namespace ref.name ks ≡ some i) × (has_edge r i es ≡ true)

-- Ids stay under their names, and edges stay.
pub record Stays (ks ks' : List Identity) (es es' : List Edge) : Type 0 where
  pub names : (ns n i : String) → known ns n ks ≡ some i → known ns n ks' ≡ some i
  pub edges : (r d : String) → has_edge r d es ≡ true → has_edge r d es' ≡ true

pub Recorded-Stays :
    (r : String) (ks ks' : List Identity) (es es' : List Edge) (ref : DatasetRef)
    → Stays ks ks' es es'
    → Recorded r ks es ref
    → Recorded r ks' es' ref
Recorded-Stays r ks ks' es es' ref s (i, there, edge) =
    (i, s.names ref.namespace ref.name i there, s.edges r i edge)

upserted-known :
    (drawn : String) (ref : DatasetRef) {i : String} {ks ks' : List Identity}
    → IsUpserted drawn ref i ks ks'
    → (known ref.namespace ref.name ks' ≡ some i)
      × ((ns n j : String) → known ns n ks ≡ some j → known ns n ks' ≡ some j)
upserted-known drawn ref {i} {ks} (inl (old, same)) = rw same (old, λ ns n j h. h)
upserted-known drawn ref {i} {ks} (inr (free, fresh, e, more)) =
    let row : Identity = (drawn, ref.namespace, ref.name) in
    rw (more, e)
      (
        ground (
          arith,
          known-append ref.namespace ref.name row ks,
          eq_refl ref.namespace,
          eq_refl ref.name,
        ),
        λ ns n j h. ground (arith, known-append ns n row ks),
      )

has_edge-link :
    (r d r' d' : String) (es : List Edge)
    → has_edge r' d' (link r d es) ≡ (has_edge r' d' es || (str_eq r r' && str_eq d d'))
unfolding link
has_edge-link r d r' d' es = ground (
  arith,
  has_edge-append r' d' (record { run_id = r; dataset_id = d }) es,
  eq_iff r r',
  eq_iff d d',
)

-- An upsert of a known dataset returns its id and keeps every identity.
upsert_dataset_old :
    (py : Runtime) (drawn : String) (ref : DatasetRef) (ds : List LineageDataset) {i : String}
    → AreDatasets (map identity ds)
    → known ref.namespace ref.name (map identity ds) ≡ some i
    → (ds' : List LineageDataset) × (upsert_dataset py drawn ref ds ≡ some (i, ds'))
      × (map identity ds' ≡ map identity ds)
unfolding upsert_dataset
upsert_dataset_old py drawn ref ds {i} a there =
    let same = known-find_dataset ref.namespace ref.name ds in
    elim (Option-cases (find_dataset ref.namespace ref.name ds)) [
      | inl missing ↦ absurd (ground arith)
      | inr (d, found) ↦
          let d' : LineageDataset = record d { facets = py.jsonb_concat d.facets ref.facets } in
          (
            save dataset_id_of d' ds,
            ground arith,
            map-save dataset_id_of identity d' ds {old = d}
                (find_dataset-find ref.namespace ref.name ds a found) refl,
          )
    ]

link_known : (r d : String) (es : List Edge) → has_edge r d es ≡ true → link r d es ≡ es
unfolding link
link_known r d es h = rw h

module _ (py : Runtime) (draw : DatasetRef → String) (r : String) where
  -- After the loop every dataset of the list is recorded, and what was there stays.
  pub link_all-Recorded :
      (refs : List DatasetRef) (ds : List LineageDataset) (es : List Edge)
      {ds' : List LineageDataset} {es' : List Edge}
      → AreDatasets (map identity ds)
      → link_all py draw r refs ds es ≡ some (ds', es')
      → AreDatasets (map identity ds')
        × Stays (map identity ds) (map identity ds') es es'
        × All (Recorded r (map identity ds') es') refs
  unfolding link_all
  link_all-Recorded [] ds es {ds'} {es'} a e =
      let same : ds ≡ ds' = ground arith in
      let same' : es ≡ es' = ground arith in
      rw (← same, ← same') (a, record { names = λ ns n i h. h; edges = λ r d h. h }, tt)
  link_all-Recorded (ref ∷ refs) ds es {ds'} {es'} a e =
      elim (Option-cases (upsert_dataset py (draw ref) ref ds)) [
        | inl clash ↦ absurd (ground arith)
        | inr ((d, ds1), done) ↦
            let up = upsert_dataset-IsUpserted py (draw ref) ref ds a done in
            let (here, keep) = upserted-known (draw ref) ref up in
            let next : link_all py draw r refs ds1 (link r d es) ≡ some (ds', es') = ground arith in
            let (a', stays, rest) =
              link_all-Recorded refs ds1 (link r d es) (upserted-AreDatasets (draw ref) ref a up)
                next in
            let edge : has_edge r d (link r d es) ≡ true =
              ground (arith, has_edge-link r d r d es, eq_refl r, eq_refl d) in
            (
              a',
              record {
                names = λ ns n i h. stays.names ns n i (keep ns n i h);
                edges = λ r' d' h. stays.edges r' d' (ground (arith, has_edge-link r d r' d' es));
              },
              ((d, stays.names ref.namespace ref.name d here, stays.edges r d edge), rest),
            )
      ]

  -- The loop over recorded datasets changes facets alone.
  pub link_all_again :
      (refs : List DatasetRef) (ds : List LineageDataset) (es : List Edge)
      → AreDatasets (map identity ds)
      → All (Recorded r (map identity ds) es) refs
      → (ds' : List LineageDataset) × (link_all py draw r refs ds es ≡ some (ds', es))
        × (map identity ds' ≡ map identity ds)
  unfolding link_all
  link_all_again [] ds es a all = (ds, refl, refl)
  link_all_again (ref ∷ refs) ds es a ((i, there, edge), all) =
      let (ds1, done, same) = upsert_dataset_old py (draw ref) ref ds a there in
      let all1 : All (Recorded r (map identity ds1) es) refs = rw same all in
      let (ds', rest, same') = link_all_again refs ds1 es (rw same a) all1 in
      let linked : link r i es ≡ es = link_known r i es edge in
      (ds', rw (done, link_all, linked) rest, same' ∙ same)
