-- ===== src/Lineage/Datasets.antt =====
-- The datasets that `_upsert_dataset` leaves, by their ids and names.
use dhp.Prelude.{
  String, ◌&&◌, Option, none, some, List, [], ◌∷◌, ◌++◌, map, ◌≡◌, ◌⊎◌, inl, inr, refl, arith,
  str_eq, eq_iff, if◌then◌else◌, is_some, All, Option-cases, Bool-cases, subst,
}
use dhp.Prelude.Rows.{Distinct, find, find_self, map-save, add-Distinct}
use dhp.Lineage.{DatasetRef, LineageDataset}
use dhp.Lineage.Service.{Runtime, dataset_id_of, find_dataset, upsert_dataset}

-- A dataset without its facets: id, namespace and name.
abbrev pub Identity : Type 0
Identity = String × String × String

abbrev pub identity : LineageDataset → Identity
identity d = (d.dataset_id, d.namespace, d.name)

abbrev pub id_of : Identity → String
id_of k = k.0

-- The id under a namespace and a name.
abbrev pub known : String → String → List Identity → Option String
known ns n [] = none
known ns n (k ∷ ks) = if str_eq k.1 ns && str_eq k.2 n then some k.0 else known ns n ks

abbrev pub DistinctNames : List Identity → Type 0
DistinctNames [] = Unit
DistinctNames (k ∷ ks) = (known k.1 k.2 ks ≡ none) × DistinctNames ks

-- The primary key and `UNIQUE (namespace, name)`.
pub record AreDatasets (ks : List Identity) : Type 0 where
  pub ids : Distinct (map id_of ks)
  pub names : DistinctNames ks

pub known-find_dataset :
    (ns n : String) (ds : List LineageDataset)
    → known ns n (map identity ds)
      ≡ elim (find_dataset ns n ds) [ none ↦ none | some d ↦ some d.dataset_id ]
known-find_dataset ns n [] = refl
known-find_dataset ns n (d ∷ ds) = ground (arith, known-find_dataset ns n ds)

pub find-identity :
    (i : String) (ds : List LineageDataset)
    → is_some (find id_of i (map identity ds)) ≡ is_some (find dataset_id_of i ds)
find-identity i [] = refl
find-identity i (d ∷ ds) = ground (arith, find-identity i ds)

ids-identity : (ds : List LineageDataset) → map id_of (map identity ds) ≡ map dataset_id_of ds
ids-identity [] = refl
ids-identity (d ∷ ds) = rw (ids-identity ds)

identity-append :
    (d : LineageDataset) (ds : List LineageDataset)
    → map identity (ds ++ d ∷ []) ≡ map identity ds ++ identity d ∷ []
identity-append d [] = refl
identity-append d (c ∷ ds) = rw (identity-append d ds)

pub known-append :
    (ns n : String) (k : Identity) (ks : List Identity)
    → known ns n (ks ++ k ∷ []) ≡ (
        if is_some (known ns n ks)
        then known ns n ks
        else (if str_eq k.1 ns && str_eq k.2 n then some k.0 else none))
known-append ns n k [] = ground arith
known-append ns n k (j ∷ ks) = ground (arith, known-append ns n k ks)

add-DistinctNames :
    (k : Identity) (ks : List Identity)
    → known k.1 k.2 ks ≡ none
    → DistinctNames ks
    → DistinctNames (ks ++ k ∷ [])
add-DistinctNames k [] h a = (refl, tt)
add-DistinctNames k (j ∷ ks) h a = ground (
  arith,
  add-DistinctNames k ks,
  known-append j.1 j.2 k ks,
  eq_iff j.1 k.1,
  eq_iff j.2 k.2,
  eq_iff k.1 j.1,
  eq_iff k.2 j.2,
)

pub add-AreDatasets :
    (k : Identity) (ks : List Identity)
    → known k.1 k.2 ks ≡ none
    → find id_of k.0 ks ≡ none
    → AreDatasets ks
    → AreDatasets (ks ++ k ∷ [])
add-AreDatasets k ks name_free id_free a = record {
  ids = add-Distinct id_of k ks id_free a.ids;
  names = add-DistinctNames k ks name_free a.names;
}

find_dataset-All :
    (P : LineageDataset → Type 0) (ns n : String) (ds : List LineageDataset) {d : LineageDataset}
    → All P ds
    → find_dataset ns n ds ≡ some d
    → P d
find_dataset-All P ns n [] a e = cc
find_dataset-All P ns n (c ∷ ds) {d} a e =
    elim (Bool-cases (str_eq c.namespace ns && str_eq c.name n)) [
      | inl here ↦ subst P (cc here) a.0
      | inr other ↦ find_dataset-All P ns n ds a.1 (rw other at e)
    ]

-- The dataset of a lookup by name is the one that its id finds.
pub find_dataset-find :
    (ns n : String) (ds : List LineageDataset) {d : LineageDataset}
    → AreDatasets (map identity ds)
    → find_dataset ns n ds ≡ some d
    → find dataset_id_of d.dataset_id ds ≡ some d
find_dataset-find ns n ds {d} a e =
    find_dataset-All (λ c. find dataset_id_of c.dataset_id ds ≡ some c) ns n ds
      (find_self dataset_id_of ds (rw (ids-identity ds) at a.ids)) e

-- An upsert returns the known id and keeps every identity, or adds one with the drawn id.
abbrev pub IsUpserted : String → DatasetRef → String → List Identity → List Identity → Type 0
IsUpserted drawn ref i ks ks' =
    (known ref.namespace ref.name ks ≡ some i) × (ks' ≡ ks)
    ⊎ (known ref.namespace ref.name ks ≡ none)
      × (find id_of drawn ks ≡ none)
      × (i ≡ drawn)
      × (ks' ≡ ks ++ (drawn, ref.namespace, ref.name) ∷ [])

pub upsert_dataset-IsUpserted :
    (py : Runtime) (drawn : String) (ref : DatasetRef) (ds : List LineageDataset) {i : String}
    {ds' : List LineageDataset}
    → AreDatasets (map identity ds)
    → upsert_dataset py drawn ref ds ≡ some (i, ds')
    → IsUpserted drawn ref i (map identity ds) (map identity ds')
unfolding upsert_dataset
upsert_dataset-IsUpserted py drawn ref ds {i} {ds'} a e =
    let same = known-find_dataset ref.namespace ref.name ds in
    elim (Option-cases (find_dataset ref.namespace ref.name ds)) [
      | inr (d, found) ↦
          let d' : LineageDataset = record d { facets = py.jsonb_concat d.facets ref.facets } in
          let kept =
            map-save dataset_id_of identity d' ds {old = d}
              (find_dataset-find ref.namespace ref.name ds a found) refl in
          inl (ground arith, ground arith)
      | inl missing ↦ elim (Option-cases (find dataset_id_of drawn ds)) [
        | inr (d, taken) ↦ absurd (ground arith)
        | inl fresh ↦
            let row : LineageDataset = record {
              dataset_id = drawn;
              namespace = ref.namespace;
              name = ref.name;
              facets = ref.facets;
            } in
            inr (
              ground arith,
              ground (arith, find-identity drawn ds),
              ground arith,
              ground (arith, identity-append row ds),
            )
      ]
    ]

pub upserted-AreDatasets :
    (drawn : String) (ref : DatasetRef) {i : String} {ks ks' : List Identity}
    → AreDatasets ks
    → IsUpserted drawn ref i ks ks'
    → AreDatasets ks'
upserted-AreDatasets drawn ref a (inl (old, same)) = rw same a
upserted-AreDatasets drawn ref {i} {ks} a (inr (free, fresh, e, more)) =
    rw more (add-AreDatasets (drawn, ref.namespace, ref.name) ks free fresh a)
