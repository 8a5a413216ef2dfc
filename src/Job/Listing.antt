-- ===== src/Job/Listing.antt =====
-- `list_jobs`: filters and pages. The order of the rows, newest submission first, is the database's,
-- so it is a parameter of each query; rows of the same instant may come in any order.
use dhp.Prelude.{
  ℕ, zero, suc, ◌-◌, ◌*◌, ◌<◌, String, Bool, true, ◌&&◌, Option, none, some, List, [], ◌∷◌, ◌++◌,
  map, ◌≡◌, ◌⊎◌, if◌then◌else◌, str_eq, truthy, length, take, drop, keep, All,
}
use mathlib.Core.List.{Permᴰ}
use mathlib.Core.List.Permᴰ
use dhp.Job.{Job, JobResponse, value, type_value}
use dhp.Job.Service.{World, response}

pub record Filters : Type 0 where
  pub status : Option String
  pub job_type : Option String
  pub submitted_by : Option String

pub record JobListResponse : Type 0 where
  pub total : ℕ
  pub page : ℕ
  pub page_size : ℕ
  pub jobs : List JobResponse

-- `if status: query = query.where(Job.status == status)`
abbrev passes : Option String → String → Bool
passes none column = true
passes (some wanted) column = if truthy wanted then str_eq column wanted else true

unfoldable pub matches : Filters → Job → Bool
matches f j =
    passes f.status (value j.status)
    && passes f.job_type (type_value j.job_type)
    && passes f.submitted_by j.submitted_by

module _ (newest_first : List Job → List Job) where
  -- `offset((page - 1) * page_size).limit(page_size)`
  unfoldable pub page_rows : ℕ → ℕ → Filters → World → List Job
  page_rows page page_size f w =
      take page_size (drop ((page - 1) * page_size) (newest_first (keep (matches f) w.jobs)))

  unfoldable pub list_jobs : ℕ → ℕ → Filters → World → JobListResponse
  list_jobs page page_size f w = record {
    total = length (keep (matches f) w.jobs);
    page = page;
    page_size = page_size;
    jobs = map response (page_rows page page_size f w);
  }

-- From the newest submission to the oldest, with no two of the same instant.
abbrev pub Descends : List Job → Type 0
Descends [] = Unit
Descends (j ∷ js) = All (λ k. k.submitted_at < j.submitted_at) js × Descends js

-- One answer of PostgreSQL to `ORDER BY submitted_at DESC` over these rows, which are of different instants.
abbrev pub IsNewestFirst : List Job → List Job → Type 0
IsNewestFirst js sorted = Permᴰ sorted js × Descends sorted

-- The head of a descending list, or an older row.
abbrev UpTo : Job → Job → Type 0
UpTo j k = (k ≡ j) ⊎ (k.submitted_at < j.submitted_at)

-- The rows of the first `n` pages, in order; each page is a request whose query orders by itself.
abbrev pub first_pages : (ℕ → List Job → List Job) → ℕ → ℕ → Filters → World → List Job
first_pages orders zero page_size f w = []
first_pages orders (suc n) page_size f w =
    first_pages orders n page_size f w ++ page_rows (orders (suc n)) (suc n) page_size f w

module _ (orders : ℕ → List Job → List Job) (page_size : ℕ) (f : Filters) (w : World)
    (ordered : (k : ℕ)
      → IsNewestFirst (keep (matches f) w.jobs) (orders k (keep (matches f) w.jobs))) where
  abbrev matching : List Job
  matching = keep (matches f) w.jobs
