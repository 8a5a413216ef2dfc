-- ===== src/Catalog/Schema.antt =====
-- The schema evolution of `update_table` against one on plain lists of columns.
use dhp.Prelude.{
  ℕ, suc, ◌+◌, ◌≤◌, String, Bool, not, none, some, List, [], ◌∷◌, ◌++◌, ◌≡◌, refl, arith, keep,
  str_eq, if◌then◌else◌, Option-cases, inl, inr, format,
}
use dhp.Prelude.Dict.{Dict}
use dhp.Catalog.{ColumnSchema, TableUpdateRequest}
use dhp.Catalog.Columns.{
  Object, contents, objects, Evolving, add_columns, drop_columns, first_named, set_name,
  rename_column, rename_columns, evolve,
}

-- The specification: a schema as a plain list of columns.
abbrev pub rename_first : String → String → List ColumnSchema → List ColumnSchema
rename_first old_name new_name [] = []
rename_first old_name new_name (c ∷ cs) =
    if str_eq c.name old_name
    then record c { name = new_name } ∷ cs
    else c ∷ rename_first old_name new_name cs

abbrev pub renamed : Dict String → List ColumnSchema → List ColumnSchema
renamed [] cs = cs
renamed ((old_name, new_name) ∷ rest) cs = renamed rest (rename_first old_name new_name cs)

abbrev pub without : List String → List ColumnSchema → List ColumnSchema
without [] cs = cs
without (n ∷ ns) cs = without ns (keep (λ c. not (str_eq c.name n)) cs)

abbrev pub evolved : TableUpdateRequest → List ColumnSchema → List ColumnSchema
evolved q cs = renamed q.rename_columns (without q.drop_columns (cs ++ q.add_columns))

-- Distinct objects: identities from `n` on, in order.
abbrev Above : ℕ → List Object → Type 0
Above n [] = Unit
Above n (o ∷ os) = (n ≤ o.0) × Above (suc (o.0)) os

Above-le : (m n : ℕ) (os : List Object) → m ≤ n → Above n os → Above m os
Above-le m n [] h a = tt
Above-le m n (o ∷ os) h a = (omega arith, a.1)

objects-Above : (n : ℕ) (cs : List ColumnSchema) → Above n (objects n cs)
objects-Above n [] = tt
objects-Above n (c ∷ cs) = (
  omega arith,
  Above-le (suc n) (n + 1) (objects (n + 1) cs) (omega arith) (objects-Above (n + 1) cs),
)

pub contents-objects : (n : ℕ) (cs : List ColumnSchema) → contents (objects n cs) ≡ cs
contents-objects n [] = refl
contents-objects n (c ∷ cs) = rw (contents-objects (n + 1) cs)

keep-Above : (p : Object → Bool) (n : ℕ) (os : List Object) → Above n os → Above n (keep p os)
keep-Above p n [] a = tt
keep-Above p n (o ∷ os) a =
    let rest = keep-Above p (suc (o.0)) os a.1 in
    let lower = Above-le n (suc (o.0)) (keep p os) (omega arith) rest in ground arith

contents-keep :
    (n : String) (os : List Object)
    → contents (keep (λ o. not (str_eq o.1.name n)) os)
      ≡ keep (λ c. not (str_eq c.name n)) (contents os)
contents-keep n [] = refl
contents-keep n (o ∷ os) = ground (arith, contents-keep n os)

set_name-Above :
    (i : ℕ) (s : String) (n : ℕ) (os : List Object) → Above n os → Above n (set_name i s os)
set_name-Above i s n [] a = tt
set_name-Above i s n (o ∷ os) a = ground (arith, set_name-Above i s (suc (o.0)) os a.1)

set_name_absent :
    (i : ℕ) (s : String) (n : ℕ) (os : List Object) → suc i ≤ n → Above n os → set_name i s os ≡ os
set_name_absent i s n [] h a = refl
set_name_absent i s n (o ∷ os) h a =
    ground (arith, set_name_absent i s (suc (o.0)) os (omega arith) a.1)

first_named-Above :
    (s : String) (n : ℕ) (os : List Object) {i : ℕ} → Above n os → first_named s os ≡ some i → n ≤ i
first_named-Above s n [] a e = absurd (ground arith)
first_named-Above s n (o ∷ os) {i} a e =
    ground (arith, first_named-Above s (suc (o.0)) os {i = i} a.1)

contents_unnamed :
    (s t : String) (os : List Object)
    → first_named s os ≡ none
    → rename_first s t (contents os) ≡ contents os
contents_unnamed s t [] e = refl
contents_unnamed s t (o ∷ os) e = ground (arith, contents_unnamed s t os)

contents-set_name :
    (s t : String) (n : ℕ) (os : List Object) {i : ℕ}
    → Above n os
    → first_named s os ≡ some i
    → contents (set_name i t os) ≡ rename_first s t (contents os)
contents-set_name s t n [] a e = absurd (ground arith)
contents-set_name s t n (o ∷ os) {i} a e = ground (
  arith,
  contents-set_name s t (suc (o.0)) os {i = i} a.1,
  set_name_absent (o.0) t (suc (o.0)) os (omega arith) a.1,
  first_named-Above s (suc (o.0)) os {i = i} a.1,
)

rename_column_lem :
    (s t : String) (e : Evolving)
    → Above 0 e.fields
    → Above 0 (rename_column s t e).fields
      × (contents (rename_column s t e).fields ≡ rename_first s t (contents e.fields))
rename_column_lem s t e a = elim (Option-cases (first_named s e.fields)) [
  | inl missing ↦
      let same = contents_unnamed s t e.fields missing in
      rw (missing, rename_column) (a, rw same refl)
  | inr (i, found) ↦
      rw (found, rename_column)
        (set_name-Above i t 0 e.fields a, contents-set_name s t 0 e.fields a found)
]

contents-rename_columns :
    (d : Dict String) (e : Evolving)
    → Above 0 e.fields
    → contents (rename_columns d e).fields ≡ renamed d (contents e.fields)
contents-rename_columns [] e a = refl
contents-rename_columns ((s, t) ∷ rest) e a =
    let (a', same) = rename_column_lem s t e a in
    rw (contents-rename_columns rest (rename_column s t e) a', same) refl

drop_columns_lem :
    (ns : List String) (e : Evolving)
    → Above 0 e.fields
    → Above 0 (drop_columns ns e).fields
      × (contents (drop_columns ns e).fields ≡ without ns (contents e.fields))
drop_columns_lem [] e a = (a, refl)
drop_columns_lem (n ∷ ns) e a =
    let kept = keep-Above (λ o. not (str_eq o.1.name n)) 0 e.fields a in
    let (a', same) =
      drop_columns_lem ns
        (record e {
          fields = keep (λ o. not (str_eq o.1.name n)) e.fields;
          changes = e.changes ++ format ("Dropped column: " ∷ n ∷ []) ∷ [];
        })
        kept in
    (a', rw (same, contents-keep n e.fields) refl)

-- The objects that the code changes in place hold what the specification says.
pub evolve-evolved :
    (cols : List ColumnSchema) (q : TableUpdateRequest)
    → contents (evolve cols q).fields ≡ evolved q cols
unfolding evolve
evolve-evolved cols q =
    let e = add_columns cols q.add_columns in
    let (a, same) = drop_columns_lem q.drop_columns e (objects-Above 0 (cols ++ q.add_columns)) in
    rw
      (
        contents-rename_columns q.rename_columns (drop_columns q.drop_columns e) a,
        same,
        contents-objects 0 (cols ++ q.add_columns),
      )
      refl
