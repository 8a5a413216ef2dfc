-- ===== src/Catalog/Versions.antt =====
-- The schema history: its versions under any sequence of requests.
use dhp.Prelude.{
  ℕ, suc, ◌+◌, ◌≤◌, String, not, none, some, List, [], ◌∷◌, ◌++◌, map, ◌≡◌, refl, sym, arith, ◌⊎◌,
  keep, length, str_eq, eq_iff, if◌then◌else◌, Bool-cases, inl, inr,
}
use dhp.Prelude.Rows.{
  Distinct, add-Distinct, find, save, find-save, find-append, find-remove_other, remove-Distinct,
  map-save, key-find,
}
use dhp.Catalog.{CatalogTable, SchemaHistory}
use dhp.Catalog.Service.{Catalog, table_id_of, is_of, initial_version, delete_table, delete_tables}
use dhp.Catalog.SchemaUpdate.{versions_of, max_version}

-- The versions from `n` on, without a gap.
abbrev pub Counts : ℕ → List SchemaHistory → Type 0
Counts n [] = Unit
Counts n (h ∷ hs) = (h.version ≡ n) × Counts (suc n) hs

max-Counts :
    (n : ℕ) (hs : List SchemaHistory)
    → Counts (suc n) hs
    → ((max_version hs ≡ 0) × (hs ≡ [])) ⊎ ((max_version hs ≡ n + length hs) × (1 ≤ length hs))
max-Counts n [] c = inl (refl, refl)
max-Counts n (h ∷ hs) c = ground (arith, max-Counts (suc n) hs)

append-Counts :
    (n : ℕ) (hs : List SchemaHistory) (h : SchemaHistory)
    → Counts n hs
    → h.version ≡ n + length hs
    → Counts n (hs ++ h ∷ [])
append-Counts n [] h c e = (omega arith, tt)
append-Counts n (k ∷ hs) h c e = (c.0, append-Counts (suc n) hs h c.1 (omega arith))

max-Counts_one : (hs : List SchemaHistory) → Counts 1 hs → max_version hs ≡ length hs
max-Counts_one hs c = ground (arith, max-Counts 0 hs)

versions_of-append :
    (i : String) (h : SchemaHistory) (hs : List SchemaHistory)
    → versions_of i (hs ++ h ∷ [])
      ≡ (if str_eq h.table_id i then versions_of i hs ++ h ∷ [] else versions_of i hs)
versions_of-append i h [] = ground arith
versions_of-append i h (k ∷ hs) = ground (arith, versions_of-append i h hs)

versions_of-keep :
    (i j : String) (hs : List SchemaHistory)
    → versions_of i (keep (λ h. not (is_of j h)) hs) ≡ (if str_eq j i then [] else versions_of i hs)
versions_of-keep i j [] = ground arith
versions_of-keep i j (h ∷ hs) =
    ground (arith, versions_of-keep i j hs, eq_iff j i, eq_iff h.table_id i, eq_iff h.table_id j)

-- The versions of each table are 1, 2, 3 and so on, only tables that exist have any, and the ids of
-- the tables are distinct.
pub record IsVersioned (c : Catalog) : Type 0 where
  pub numbered : (i : String) → Counts 1 (versions_of i c.history)
  pub owned : (i : String) → find table_id_of i c.tables ≡ none → versions_of i c.history ≡ []
  pub distinct : Distinct (map table_id_of c.tables)

module _ (t : CatalogTable) (c : Catalog) where
  pub delete_table-IsVersioned : IsVersioned c → IsVersioned (delete_table t c)
  delete_table-IsVersioned v = record {
    numbered = λ i. elim (Bool-cases (str_eq t.table_id i)) [
      | inl e ↦ rw (versions_of-keep i t.table_id c.history, e) tt
      | inr e ↦ rw (versions_of-keep i t.table_id c.history, e) (v.numbered i)
    ];
    owned = λ i missing. elim (Bool-cases (str_eq t.table_id i)) [
      | inl e ↦ rw (versions_of-keep i t.table_id c.history, e) refl
      | inr e ↦
          let other = find-remove_other table_id_of t.table_id i c.tables e in
          rw (versions_of-keep i t.table_id c.history, e) (v.owned i (rw other at missing))
    ];
    distinct = remove-Distinct table_id_of table_id_of t.table_id c.tables v.distinct;
  }

pub delete_tables-IsVersioned :
    (ts : List CatalogTable) (c : Catalog) → IsVersioned c → IsVersioned (delete_tables ts c)
delete_tables-IsVersioned [] c v = v
delete_tables-IsVersioned (t ∷ ts) c v =
    delete_tables-IsVersioned ts (delete_table t c) (delete_table-IsVersioned t c v)

-- One more version, at the end, of a table that is there.
append-numbered :
    (h : SchemaHistory) (hs : List SchemaHistory)
    → ((i : String) → Counts 1 (versions_of i hs))
    → h.version ≡ length (versions_of h.table_id hs) + 1
    → (i : String) → Counts 1 (versions_of i (hs ++ h ∷ []))
append-numbered h hs numbered e i = elim (Bool-cases (str_eq h.table_id i)) [
  | inr other ↦ rw (versions_of-append i h hs, other) (numbered i)
  | inl same ↦
      rw (versions_of-append i h hs, same)
        (append-Counts 1 (versions_of i hs) h (numbered i) (ground (arith, eq_iff h.table_id i)))
]

-- A table that is added with its first version, and the changes of a table that is there.
pub add-IsVersioned :
    (t : CatalogTable) (c c' : Catalog)
    → find table_id_of t.table_id c.tables ≡ none
    → IsVersioned c
    → c'.tables ≡ c.tables ++ t ∷ []
    → c'.history ≡ c.history ++ initial_version t ∷ []
    → IsVersioned c'
add-IsVersioned t c c' fresh v tables history = record {
  numbered = rw history (
      append-numbered (initial_version t) c.history v.numbered
        (rw (v.owned t.table_id fresh) refl));
  owned = λ i missing. rw history (
      ground (
        arith,
        v.owned i,
        rw tables at missing,
        find-append table_id_of i t c.tables,
        versions_of-append i (initial_version t) c.history,
      ));
  distinct = rw tables (add-Distinct table_id_of t c.tables fresh v.distinct);
}

pub save-IsVersioned :
    (t u : CatalogTable) (c : Catalog)
    → find table_id_of u.table_id c.tables ≡ some t
    → IsVersioned c
    → IsVersioned (record c { tables = save table_id_of u c.tables })
save-IsVersioned t u c found v = record {
  numbered = v.numbered;
  owned = λ i missing.
      ground (arith, v.owned i, eq_iff u.table_id i, find-save table_id_of i u c.tables);
  distinct =
      rw
        (map-save table_id_of table_id_of u c.tables {old = t} found
          (sym (key-find table_id_of u.table_id c.tables {r = t} found)))
        v.distinct;
}

pub append-IsVersioned :
    (t : CatalogTable) (h : SchemaHistory) (c : Catalog)
    → find table_id_of h.table_id c.tables ≡ some t
    → h.version ≡ max_version (versions_of h.table_id c.history) + 1
    → IsVersioned c
    → IsVersioned (record c { history = c.history ++ h ∷ [] })
append-IsVersioned t h c found version v = record {
  numbered =
      append-numbered h c.history v.numbered
        (ground (arith, max-Counts_one (versions_of h.table_id c.history) (v.numbered h.table_id)));
  owned =
      λ i missing. ground (arith, v.owned i, eq_iff h.table_id i, versions_of-append i h c.history);
  distinct = v.distinct;
}
