-- ===== src/Job/Table.antt =====
-- The table `jobs` as the service uses it: rows in insertion order, `job_id` the primary key.
use dhp.Prelude.{
  String, Option, none, some, List, [], ◌∷◌, ◌++◌, ◌≡◌, refl, arith, eq_iff, str_eq, if◌then◌else◌,
  is_some, All, Bool-cases, inl, inr, subst,
}
use dhp.Job.{Job}

-- `select(Job).where(Job.job_id == job_id)` with `scalar_one_or_none`
abbrev pub find : String → List Job → Option Job
find i [] = none
find i (j ∷ js) = if str_eq j.job_id i then some j else find i js

-- The flush of a changed row: an UPDATE by primary key.
abbrev pub save : Job → List Job → List Job
save j [] = []
save j (k ∷ ks) = if str_eq k.job_id j.job_id then j ∷ ks else k ∷ save j ks

-- The flush of a new row: an INSERT, behind the rows that are there.
abbrev pub add : Job → List Job → List Job
add j js = js ++ j ∷ []

pub find-save :
    (i : String) (j : Job) (js : List Job)
    → find i (save j js)
      ≡ (if str_eq j.job_id i then (if is_some (find i js) then some j else none) else find i js)
find-save i j [] = ground arith
find-save i j (k ∷ ks) =
    ground (arith, find-save i j ks, eq_iff k.job_id j.job_id, eq_iff k.job_id i, eq_iff j.job_id i)

pub find-add :
    (i : String) (j : Job) (js : List Job)
    → find i (add j js)
      ≡ (if is_some (find i js) then find i js else (if str_eq j.job_id i then some j else none))
find-add i j [] = ground arith
find-add i j (k ∷ ks) = ground (arith, find-add i j ks)

pub job_id-find : (i : String) (js : List Job) {j : Job} → find i js ≡ some j → j.job_id ≡ i
job_id-find i [] h = cc
job_id-find i (k ∷ ks) {j} h = ground (arith, job_id-find i ks {j = j}, eq_iff k.job_id i)

-- The table's primary key: no two rows have one id.
abbrev pub HasDistinctIds : List Job → Type 0
HasDistinctIds [] = Unit
HasDistinctIds (j ∷ js) = (find j.job_id js ≡ none) × HasDistinctIds js

pub find-save_other :
    (i : String) (j : Job) (js : List Job) → find i js ≡ none → find i (save j js) ≡ none
find-save_other i j [] h = refl
find-save_other i j (k ∷ ks) h =
    ground (
      arith,
      find-save_other i j ks,
      eq_iff k.job_id j.job_id,
      eq_iff k.job_id i,
      eq_iff j.job_id i,
    )

pub save-HasDistinctIds : (j : Job) (js : List Job) → HasDistinctIds js → HasDistinctIds (save j js)
save-HasDistinctIds j [] h = tt
save-HasDistinctIds j (k ∷ ks) h =
    ground
      (arith, save-HasDistinctIds j ks h.1, find-save_other k.job_id j ks, eq_iff k.job_id j.job_id)

pub add-HasDistinctIds :
    (j : Job) (js : List Job)
    → find j.job_id js ≡ none
    → HasDistinctIds js
    → HasDistinctIds (add j js)
add-HasDistinctIds j [] h d = (refl, tt)
add-HasDistinctIds j (k ∷ ks) h d = ground (
  arith,
  add-HasDistinctIds j ks,
  find-add k.job_id j ks,
  eq_iff k.job_id j.job_id,
  eq_iff j.job_id k.job_id,
)

module _ (P : Job → Type 0) where
  pub All-save : (j : Job) (js : List Job) → P j → All P js → All P (save j js)
  All-save j [] h a = tt
  All-save j (k ∷ ks) h a = elim (Bool-cases (str_eq k.job_id j.job_id)) [
    | inl e ↦ rw e (h, a.1)
    | inr e ↦ rw e (a.0, All-save j ks h a.1)
  ]

  pub All-find : (i : String) (js : List Job) {j : Job} → All P js → find i js ≡ some j → P j
  All-find i [] a e = cc
  All-find i (k ∷ ks) {j} a e = elim (Bool-cases (str_eq k.job_id i)) [
    | inl t ↦ subst P (cc t) a.0
    | inr t ↦ All-find i ks a.1 (rw t at e)
  ]

-- To save a row as it was found changes nothing.
pub save-find : (i : String) (js : List Job) {j : Job} → find i js ≡ some j → save j js ≡ js
save-find i [] h = refl
save-find i (k ∷ ks) {j} h = ground (
  arith,
  save-find i ks {j = j},
  job_id-find i ks {j = j},
  eq_iff k.job_id i,
  eq_iff k.job_id j.job_id,
)
