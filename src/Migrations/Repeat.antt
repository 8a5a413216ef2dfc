-- ===== src/Migrations/Repeat.antt =====
-- `alembic upgrade` on a database that has some of the objects already.
use dhp.Prelude.{
  ℕ, append_assoc, take, drop, take-append-drop, true, false, none, some, List, [], ◌∷◌, ◌++◌, ◌≡◌,
  refl, sym, ap, ◌∙◌, All, str_eq, Bool-cases, Option-cases, inl, inr, arith, eq_refl, subst,
}
use mathlib.Core.Option.{some-injective}
use dhp.Migrations.Downgrade.{chain, All-all, All-split, upgrades-append}
use dhp.Migrations.{
  Schema, Statement, create_extension, create_function, create_table, create_index, create_trigger,
  drop_trigger, drop_function, drop_table, drop_index, put, run, run_all, upgrades,
}
use dhp.Migrations.Growth.{
  is_there, creates, Prefix, same_list, any-last, Grows, Grows-refl, is_there-Grows, unchanged,
  touch, others-put, holds-put,
}

abbrev Created : Schema → Statement → Schema → Type 0
Created d s e = Grows d e × (is_there e s ≡ true)

added :
    (s : Statement) (d e : Schema)
    → creates s ≡ true
    → is_there d s ≡ false
    → run s d ≡ some e
    → Created d s e
unfolding run
added (create_extension x) d e c f h =
    let e' : Schema = record d { extensions = d.extensions ++ x ∷ [] } in
    let same : e' ≡ e = ground arith in
    subst (Created d (create_extension x)) same (
      record {
        extensions = (x ∷ [], refl);
        tables = same_list d.tables;
        indexes = same_list d.indexes;
        functions = refl;
        touched = λ h. h;
        triggers = same_list d.triggers;
      },
      any-last (λ s. str_eq s x) d.extensions x (eq_refl x),
    )
added (create_function x) d e c f h =
    let e' : Schema = record d { functions = put x d.functions } in
    let same : e' ≡ e = ground arith in
    let name : str_eq x.name touch.name ≡ true = ground arith in
    let body : str_eq x.body touch.body ≡ true = ground arith in
    subst (Created d (create_function x)) same (
      record {
        extensions = same_list d.extensions;
        tables = same_list d.tables;
        indexes = same_list d.indexes;
        functions = others-put x d.functions name;
        touched = λ _. holds-put x touch d.functions name body;
        triggers = same_list d.triggers;
      },
      holds-put x x d.functions (eq_refl x.name) (eq_refl x.body),
    )
added (create_table x) d e c f h =
    let e' : Schema = record d { tables = d.tables ++ x ∷ [] } in
    let same : e' ≡ e = ground arith in
    subst (Created d (create_table x)) same (
      record {
        extensions = same_list d.extensions;
        tables = (x ∷ [], refl);
        indexes = same_list d.indexes;
        functions = refl;
        touched = λ h. h;
        triggers = same_list d.triggers;
      },
      any-last (λ t. str_eq t.name x.name) d.tables x (eq_refl x.name),
    )
added (create_index x) d e c f h =
    let e' : Schema = record d { indexes = d.indexes ++ x ∷ [] } in
    let same : e' ≡ e = ground arith in
    subst (Created d (create_index x)) same (
      record {
        extensions = same_list d.extensions;
        tables = same_list d.tables;
        indexes = (x ∷ [], refl);
        functions = refl;
        touched = λ h. h;
        triggers = same_list d.triggers;
      },
      any-last (λ t. str_eq t.name x.name) d.indexes x (eq_refl x.name),
    )
added (create_trigger x) d e c f h =
    let e' : Schema = record d { triggers = d.triggers ++ x ∷ [] } in
    let same : e' ≡ e = ground arith in
    subst (Created d (create_trigger x)) same (
      record {
        extensions = same_list d.extensions;
        tables = same_list d.tables;
        indexes = same_list d.indexes;
        functions = refl;
        touched = λ h. h;
        triggers = (x ∷ [], refl);
      },
      any-last (λ t. str_eq t.name x.name) d.triggers x (eq_refl x.name),
    )
added (drop_function x) d e c f h = cc
added (drop_index x) d e c f h = cc
added (drop_trigger n t) d e c f h = cc
added (drop_table n t) d e c f h = cc

created : (s : Statement) (d e : Schema) → creates s ≡ true → run s d ≡ some e → Created d s e
created s d e c h = elim (Bool-cases (is_there d s)) [
  | inl t ↦
      let same : d ≡ e = some-injective d e (sym (unchanged s d t) ∙ h) in
      subst (Created d s) same (Grows-refl d, t)
  | inr f ↦ added s d e c f h
]

longer : {A : Type 0} (xs ys zs : List A) → Prefix xs ys → Prefix ys zs → Prefix xs zs
longer xs ys zs (us, e) (vs, f) = (us ++ vs, f ∙ ap (λ l. l ++ vs) e ∙ append_assoc xs us vs)

Grows-trans : (d e f : Schema) → Grows d e → Grows e f → Grows d f
Grows-trans d e f g h = record {
  extensions = longer d.extensions e.extensions f.extensions g.extensions h.extensions;
  tables = longer d.tables e.tables f.tables g.tables h.tables;
  indexes = longer d.indexes e.indexes f.indexes g.indexes h.indexes;
  functions = h.functions ∙ g.functions;
  touched = λ t. h.touched (g.touched t);
  triggers = longer d.triggers e.triggers f.triggers g.triggers h.triggers;
}

abbrev AreThere : Schema → List Statement → Type 0
AreThere d = All (λ s. is_there d s ≡ true)

created_all :
    (ss : List Statement) (d e : Schema)
    → All (λ s. creates s ≡ true) ss
    → run_all ss d ≡ some e
    → Grows d e × AreThere e ss
unfolding run_all
created_all [] d e c h = (subst (Grows d) (some-injective d e h) (Grows-refl d), tt)
created_all (s ∷ ss) d e c h = elim (Option-cases (run s d)) [
  | inl raised ↦ let off : none ≡ some e = rw (run_all, raised) at h in cc
  | inr (f, done) ↦
      let (first, there) = created s d f c.0 done in
      let (more, rest) = created_all ss f e c.1 (rw (run_all, done) at h) in
      (Grows-trans d f e first more, (is_there-Grows f e more s c.0 there, rest))
]

unchanged_all : (ss : List Statement) (d : Schema) → AreThere d ss → run_all ss d ≡ some d
unfolding run_all
unchanged_all [] d a = refl
unchanged_all (s ∷ ss) d a = rw (run_all, unchanged s d a.0) (unchanged_all ss d a.1)

creating : (i : ℕ) → All (λ s. creates s ≡ true) (upgrades (drop i chain))
unfolding upgrades
creating i =
    let Creates : Statement → Type 0 = λ s. creates s ≡ true in
    let below = take i chain in
    let above = drop i chain in
    (All-split Creates (upgrades below) (upgrades above) (
      subst (All Creates)
        (ap upgrades (sym (take-append-drop i chain)) ∙ upgrades-append below above)
        (All-all creates (upgrades chain) refl))).1

-- The upgrade from any revision on, on any schema on which it succeeds, whatever that holds already: the
-- extensions, tables, indexes and triggers that were there stay as they were, the tables with their
-- columns and constraints, and new ones come after them; every function stays but
-- `update_updated_at_column`, which the baseline creates or replaces; and to run the upgrade once more
-- changes nothing.
pub upgrade_settles :
    (i : ℕ) (d e : Schema)
    → run_all (upgrades (drop i chain)) d ≡ some e
    → Grows d e × (run_all (upgrades (drop i chain)) e ≡ some e)
upgrade_settles i d e h =
    let (grows, there) = created_all (upgrades (drop i chain)) d e (creating i) h in
    (grows, unchanged_all (upgrades (drop i chain)) e there)
