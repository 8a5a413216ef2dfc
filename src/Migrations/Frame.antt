-- ===== src/Migrations/Frame.antt =====
-- Statements that meet nothing of what a schema holds do to a larger schema what they do to the rest of it.
use dhp.Prelude.{
  String, Bool, true, false, not, ◌&&◌, Option, none, some, List, [], ◌∷◌, ◌++◌, ◌≡◌, refl, ap, map,
  keep, All, append_assoc, str_eq, Option-cases, inl, inr, arith,
}
use dhp.Migrations.{
  Constraint, primary_key, not_null, unique, default_to, one_of, references, is_foreign, foreign,
  Column, Table, Schema, Statement, create_extension, create_function, create_table, create_index,
  create_trigger, drop_trigger, drop_function, drop_table, drop_index, any, has, has_table,
  Function, has_function, put, foreign_of, targets, detach, detach_column, run, run_all,
}

-- What `d` holds, in front of what `o` holds.
abbrev pub over : Schema → Schema → Schema
over d o = record {
  extensions = d.extensions;
  tables = d.tables ++ o.tables;
  indexes = d.indexes ++ o.indexes;
  functions = d.functions ++ o.functions;
  triggers = d.triggers ++ o.triggers;
}

-- The statement names nothing that `d` holds, and its extension is there.
abbrev pub is_fresh : Schema → Statement → Bool
is_fresh d (create_extension e) = has e d.extensions
is_fresh d (create_function f) = not (has_function f.name d.functions)
is_fresh d (drop_function f) =
    not (any (λ t. str_eq t.function f) d.triggers) && not (has_function f d.functions)
is_fresh d (drop_index n) = not (any (λ i. str_eq i.name n) d.indexes)
is_fresh d (create_table t) =
    not (has_table t.name d.tables) && not (any (λ n. has_table n d.tables) (targets t))
is_fresh d (create_index i) =
    not (any (λ j. str_eq j.name i.name) d.indexes) && not (has_table i.table d.tables)
is_fresh d (create_trigger t) =
    not (any (λ u. str_eq u.name t.name) d.triggers)
    && not (has_table t.table d.tables)
    && not (has_function t.function d.functions)
is_fresh d (drop_trigger n t) = not (any (λ u. str_eq u.name n && str_eq u.table t) d.triggers)
is_fresh d (drop_table n cascade) =
    not (has_table n d.tables)
    && not (any (λ t. has n (targets t)) d.tables)
    && not (any (λ i. str_eq i.table n) d.indexes)
    && not (any (λ t. str_eq t.table n) d.triggers)

abbrev pub lift : Schema → Option Schema → Option Schema
lift d none = none
lift d (some o) = some (over d o)

module _ {ℓ} {A : Type ℓ} (p : A → Bool) where
  any-left : (xs ys : List A) → any p xs ≡ false → any p (xs ++ ys) ≡ any p ys
  any-left [] ys h = refl
  any-left (x ∷ xs) ys h = ground (arith, any-left xs ys)

  any-and-left :
      (q : A → Bool) (xs ys : List A)
      → any p xs ≡ false
      → any (λ x. p x && q x) (xs ++ ys) ≡ any (λ x. p x && q x) ys
  any-and-left q [] ys h = refl
  any-and-left q (x ∷ xs) ys h = ground (arith, any-and-left q xs ys)

  keep-left :
      (xs ys : List A)
      → any p xs ≡ false
      → keep (λ x. not (p x)) (xs ++ ys) ≡ xs ++ keep (λ x. not (p x)) ys
  keep-left [] ys h = refl
  keep-left (x ∷ xs) ys h = ground (arith, keep-left xs ys)

put-left :
    (f : Function) (xs ys : List Function)
    → has_function f.name xs ≡ false
    → put f (xs ++ ys) ≡ xs ++ put f ys
put-left f [] ys h = refl
put-left f (x ∷ xs) ys h = ground (arith, put-left f xs ys)

any-append-false :
    (n : String) (xs ys : List String)
    → has n (xs ++ ys) ≡ false
    → (has n xs ≡ false) × (has n ys ≡ false)
any-append-false n [] ys h = (refl, h)
any-append-false n (x ∷ xs) ys h = ground (arith, any-append-false n xs ys)

keep-foreign :
    (n : String) (ks : List Constraint)
    → has n (foreign ks) ≡ false
    → keep (λ k. not (is_foreign n k)) ks ≡ ks
keep-foreign n [] h = refl
keep-foreign n (references t c ∷ ks) h = ground (arith, keep-foreign n ks)
keep-foreign n (primary_key ∷ ks) h = ap (◌∷◌ primary_key) (keep-foreign n ks h)
keep-foreign n (not_null ∷ ks) h = ap (◌∷◌ not_null) (keep-foreign n ks h)
keep-foreign n (unique ∷ ks) h = ap (◌∷◌ unique) (keep-foreign n ks h)
keep-foreign n (default_to v ∷ ks) h = ap (◌∷◌ (default_to v)) (keep-foreign n ks h)
keep-foreign n (one_of vs ∷ ks) h = ap (◌∷◌ (one_of vs)) (keep-foreign n ks h)

map-detach_column :
    (n : String) (cs : List Column) → has n (foreign_of cs) ≡ false → map (detach_column n) cs ≡ cs
map-detach_column n [] h = refl
map-detach_column n (c ∷ cs) h =
    let (here, there) = any-append-false n (foreign c.constraints) (foreign_of cs) h in
    rw (keep-foreign n c.constraints here, map-detach_column n cs there)

detach-left :
    (n : String) (xs ys : List Table)
    → any (λ t. has n (targets t)) xs ≡ false
    → map (detach n) (xs ++ ys) ≡ xs ++ map (detach n) ys
detach-left n [] ys h = refl
detach-left n (x ∷ xs) ys h =
    let here : has n (targets x) ≡ false = ground arith in
    let there : any (λ t. has n (targets t)) xs ≡ false = ground arith in
    rw (map-detach_column n x.columns here, detach-left n xs ys there)

any-missing :
    (ns : List String) (ts us : List Table)
    → any (λ n. has_table n ts) ns ≡ false
    → any (λ n. not (has_table n (ts ++ us))) ns ≡ any (λ n. not (has_table n us)) ns
any-missing [] ts us h = refl
any-missing (n ∷ ns) ts us h =
    ground (arith, any-missing ns ts us, any-left (λ t. str_eq t.name n) ts us)

frame :
    (d : Schema) (s : Statement) (o : Schema)
    → is_fresh d s ≡ true
    → run s (over d o) ≡ lift d (run s o)
unfolding run
frame d (create_extension e) o h = ground arith
frame d (create_function f) o h = ground (arith, put-left f d.functions o.functions)
frame d (drop_function f) o h = ground (
  arith,
  any-left (λ t. str_eq t.function f) d.triggers o.triggers,
  keep-left (λ g. str_eq g.name f) d.functions o.functions,
)
frame d (drop_index n) o h = ground (arith, keep-left (λ i. str_eq i.name n) d.indexes o.indexes)
frame d (create_table t) o h = ground (
  arith,
  any-left (λ u. str_eq u.name t.name) d.tables o.tables,
  any-missing (targets t) d.tables o.tables,
  append_assoc d.tables o.tables (t ∷ []),
)
frame d (create_index i) o h =
    let columns : Table → Bool =
      λ t. not (any (λ n. not (any (λ c. str_eq c.name n) t.columns)) i.columns) in
    ground (
      arith,
      any-left (λ j. str_eq j.name i.name) d.indexes o.indexes,
      any-and-left (λ t. str_eq t.name i.table) columns d.tables o.tables,
      append_assoc d.indexes o.indexes (i ∷ []),
    )
frame d (create_trigger t) o h = ground (
  arith,
  any-left (λ u. str_eq u.name t.name) d.triggers o.triggers,
  any-left (λ u. str_eq u.name t.table) d.tables o.tables,
  any-left (λ f. str_eq f.name t.function) d.functions o.functions,
  append_assoc d.triggers o.triggers (t ∷ []),
)
frame d (drop_trigger n t) o h =
    ground (arith, keep-left (λ u. str_eq u.name n && str_eq u.table t) d.triggers o.triggers)
frame d (drop_table n cascade) o h =
    let absent : has_table n d.tables ≡ false = ground arith in
    let unused : any (λ t. has n (targets t)) d.tables ≡ false = ground arith in
    let plain : any (λ i. str_eq i.table n) d.indexes ≡ false = ground arith in
    let quiet : any (λ t. str_eq t.table n) d.triggers ≡ false = ground arith in
    let left = keep (λ t. not (str_eq t.name n)) o.tables in
    rw
      (
        any-left (λ t. str_eq t.name n) d.tables o.tables absent,
        keep-left (λ t. str_eq t.name n) d.tables o.tables absent,
        any-left (λ t. has n (targets t)) d.tables left unused,
        detach-left n d.tables left unused,
        keep-left (λ i. str_eq i.table n) d.indexes o.indexes plain,
        keep-left (λ t. str_eq t.table n) d.triggers o.triggers quiet,
      )
      (ground arith)

-- A statement after the other, on top of a schema that none of them touches.
pub frame_all :
    (d : Schema) (ss : List Statement) (o : Schema)
    → All (λ s. is_fresh d s ≡ true) ss
    → run_all ss (over d o) ≡ lift d (run_all ss o)
unfolding run_all
frame_all d [] o h = refl
frame_all d (s ∷ ss) o (fresh, rest) = elim (Option-cases (run s o)) [
  | inl raised ↦ rw (run_all, frame d s o fresh, raised)
  | inr (e, done) ↦ rw (run_all, frame d s o fresh, done) (frame_all d ss e rest)
]
