-- ===== src/Migrations/Growth.antt =====
-- What statements that create add to a schema, and what they find there.
use dhp.Prelude.{
  Bool, true, false, some, List, [], ◌∷◌, ◌++◌, ◌≡◌, sym, str_eq, arith, append-nil, not, ◌&&◌,
  if◌then◌else◌, keep, eq_iff, refl, subst,
}
use dhp.Migrations.{
  Schema, Statement, create_extension, create_function, create_table, create_index, create_trigger,
  drop_trigger, drop_function, drop_table, drop_index, any, has, has_table, Function, put, run,
}
use dhp.Migrations.Baseline.{update_updated_at_column}

-- The function of the name has this body.
abbrev pub holds : Function → List Function → Bool
holds f [] = false
holds f (g ∷ gs) = if str_eq g.name f.name then str_eq g.body f.body else holds f gs

-- The name is taken by an object of its kind, and of a function the body is the same.
abbrev pub is_there : Schema → Statement → Bool
is_there d (create_extension e) = has e d.extensions
is_there d (create_function f) = holds f d.functions
is_there d (create_table t) = has_table t.name d.tables
is_there d (create_index i) = any (λ j. str_eq j.name i.name) d.indexes
is_there d (create_trigger t) = any (λ u. str_eq u.name t.name) d.triggers
is_there d _ = false

abbrev pub touch : Function
touch = update_updated_at_column

-- A statement that creates; the one function is that of the baseline.
abbrev pub creates : Statement → Bool
creates (create_extension _) = true
creates (create_function f) = str_eq f.name touch.name && str_eq f.body touch.body
creates (create_table _) = true
creates (create_index _) = true
creates (create_trigger _) = true
creates _ = false

pub any-grows :
    {A : Type 0} (p : A → Bool) (xs ys : List A) → any p xs ≡ true → any p (xs ++ ys) ≡ true
any-grows p [] ys h = cc
any-grows p (x ∷ xs) ys h = ground (arith, any-grows p xs ys)

pub any-last :
    {A : Type 0} (p : A → Bool) (xs : List A) (x : A) → p x ≡ true → any p (xs ++ x ∷ []) ≡ true
any-last p [] x h = ground arith
any-last p (y ∷ xs) x h = ground (arith, any-last p xs x)

put-same : (f : Function) (fs : List Function) → holds f fs ≡ true → put f fs ≡ fs
put-same f [] h = cc
put-same f (g ∷ gs) h = ground (arith, put-same f gs, eq_iff g.name f.name, eq_iff g.body f.body)

pub unchanged : (s : Statement) (d : Schema) → is_there d s ≡ true → run s d ≡ some d
unfolding run
unchanged (create_extension x) d h = ground arith
unchanged (create_function x) d h = ground (arith, put-same x d.functions)
unchanged (create_table x) d h = ground arith
unchanged (create_index x) d h = ground arith
unchanged (create_trigger x) d h = ground arith
unchanged (drop_function x) d h = cc
unchanged (drop_index x) d h = cc
unchanged (drop_trigger n t) d h = cc
unchanged (drop_table n t) d h = cc

abbrev pub Prefix : {A : Type 0} → List A → List A → Type 0
Prefix {A} xs ys = (zs : List A) × (ys ≡ xs ++ zs)

pub same_list : {A : Type 0} (xs : List A) → Prefix xs xs
same_list xs = ([], sym (append-nil xs))

any-Prefix :
    {A : Type 0} (p : A → Bool) (xs ys : List A) → Prefix xs ys → any p xs ≡ true → any p ys ≡ true
any-Prefix p xs ys (zs, e) h = rw e (any-grows p xs zs h)

-- The functions but that of the baseline.
abbrev pub others : List Function → List Function
others = keep (λ f. not (str_eq f.name touch.name))

pub others-put :
    (f : Function) (fs : List Function)
    → str_eq f.name touch.name ≡ true
    → others (put f fs) ≡ others fs
others-put f [] h = ground arith
others-put f (g ∷ gs) h =
    ground (arith, others-put f gs, eq_iff g.name f.name, eq_iff f.name touch.name)

pub holds-put :
    (f t : Function) (fs : List Function)
    → str_eq f.name t.name ≡ true
    → str_eq f.body t.body ≡ true
    → holds t (put f fs) ≡ true
holds-put f t [] n b = ground arith
holds-put f t (g ∷ gs) n b =
    ground (arith, holds-put f t gs, eq_iff g.name f.name, eq_iff f.name t.name)

-- What a schema becomes by statements that create: its extensions, tables, indexes and triggers stay and
-- others come after them; its functions stay but that of the baseline, which keeps its body once it has it.
pub record Grows (d e : Schema) : Type 0 where
  pub extensions : Prefix d.extensions e.extensions
  pub tables : Prefix d.tables e.tables
  pub indexes : Prefix d.indexes e.indexes
  pub functions : others e.functions ≡ others d.functions
  pub touched : holds touch d.functions ≡ true → holds touch e.functions ≡ true
  pub triggers : Prefix d.triggers e.triggers

pub Grows-refl : (d : Schema) → Grows d d
Grows-refl d = record {
  extensions = same_list d.extensions;
  tables = same_list d.tables;
  indexes = same_list d.indexes;
  functions = refl;
  touched = λ h. h;
  triggers = same_list d.triggers;
}

pub is_there-Grows :
    (d e : Schema)
    → Grows d e
    → (s : Statement) → creates s ≡ true
    → is_there d s ≡ true
    → is_there e s ≡ true
is_there-Grows d e g (create_extension x) c h =
    any-Prefix (λ s. str_eq s x) d.extensions e.extensions g.extensions h
is_there-Grows d e g (create_function x) c h =
    let name : x.name ≡ touch.name = ground (arith, eq_iff x.name touch.name) in
    let body : x.body ≡ touch.body = ground (arith, eq_iff x.body touch.body) in
    let same : x ≡ touch = ground arith in
    subst (λ f. holds f e.functions ≡ true) (sym same)
      (g.touched (subst (λ f. holds f d.functions ≡ true) same h))
is_there-Grows d e g (create_table x) c h =
    any-Prefix (λ t. str_eq t.name x.name) d.tables e.tables g.tables h
is_there-Grows d e g (create_index x) c h =
    any-Prefix (λ t. str_eq t.name x.name) d.indexes e.indexes g.indexes h
is_there-Grows d e g (create_trigger x) c h =
    any-Prefix (λ t. str_eq t.name x.name) d.triggers e.triggers g.triggers h
is_there-Grows d e g (drop_function x) c h = cc
is_there-Grows d e g (drop_index x) c h = cc
is_there-Grows d e g (drop_trigger n t) c h = cc
is_there-Grows d e g (drop_table n t) c h = cc
