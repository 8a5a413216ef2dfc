-- ===== src/Lineage/Routes.antt =====
-- The order of the routes of the lineage service, with FastAPI's dispatch as an argument.
use dhp.Prelude.{
  String, Bool, true, false, ◌&&◌, Option, none, some, List, [], ◌∷◌, ◌≡◌, ◌≢◌, arith, str_eq,
  if◌then◌else◌,
}
use dhp.Lineage.Router.{
  Segment, literal, param, path_param, Endpoint, post_event, get_runs, get_one, get_upstream,
  get_downstream, Route, routes,
}

-- How FastAPI matches a path, split at its slashes, against a template, and dispatches a request.
pub record Dispatcher : Type 0 where
  pub matches : List Segment → List String → Bool
  pub dispatch : List Route → String → List String → Option Endpoint

-- What FastAPI documents: a parameter stands for one segment, and one declared with `:path` for any
-- rest of the path; the path operations are tried in order and the first that matches serves.
pub record IsFastApi (api : Dispatcher) : Type 0 where
  pub matches_literal :
      (t s : String) (ts : List Segment) (ss : List String)
      → api.matches (literal t ∷ ts) (s ∷ ss) ≡ (str_eq t s && api.matches ts ss)
  pub matches_param :
      (t s : String) (ts : List Segment) (ss : List String)
      → api.matches (param t ∷ ts) (s ∷ ss) ≡ api.matches ts ss
  pub matches_path :
      (t s : String) (ss : List String) → api.matches (path_param t ∷ []) (s ∷ ss) ≡ true
  pub matches_short : (t : Segment) (ts : List Segment) → api.matches (t ∷ ts) [] ≡ false
  pub dispatch_none : (method : String) (path : List String) → api.dispatch [] method path ≡ none
  pub dispatch_first :
      (r : Route) (rs : List Route) (method : String) (path : List String)
      → api.dispatch (r ∷ rs) method path ≡ (
          if str_eq r.method method && api.matches r.template path
          then some r.endpoint
          else api.dispatch rs method path)

module _ (api : Dispatcher) (fast : IsFastApi api) where
  -- A template that goes on after a `:path` parameter matches no more than the one that ends there.
  matches_shadowed :
      (ts : List Segment) (path : List String)
      → api.matches (literal "datasets" ∷ param "namespace" ∷ path_param "name" ∷ ts) path ≡ true
      → api.matches (literal "datasets" ∷ param "namespace" ∷ path_param "name" ∷ []) path ≡ true
  matches_shadowed ts [] h = absurd (
      ground (
        arith,
        fast.matches_short (literal "datasets") (param "namespace" ∷ path_param "name" ∷ ts),
      ))
  matches_shadowed ts (a ∷ []) h = absurd (
      ground (
        arith,
        fast.matches_short (param "namespace") (path_param "name" ∷ ts),
        fast.matches_literal "datasets" a (param "namespace" ∷ path_param "name" ∷ ts) [],
      ))
  matches_shadowed ts (a ∷ b ∷ []) h = absurd (
      ground (
        arith,
        fast.matches_short (path_param "name") ts,
        fast.matches_param "namespace" b (path_param "name" ∷ ts) [],
        fast.matches_literal "datasets" a (param "namespace" ∷ path_param "name" ∷ ts) (b ∷ []),
      ))
  matches_shadowed ts (a ∷ b ∷ c ∷ rest) h = ground (
    arith,
    fast.matches_literal "datasets" a (param "namespace" ∷ path_param "name" ∷ ts) (b ∷ c ∷ rest),
    fast.matches_literal "datasets" a (param "namespace" ∷ path_param "name" ∷ []) (b ∷ c ∷ rest),
    fast.matches_param "namespace" b (path_param "name" ∷ []) (c ∷ rest),
    fast.matches_path "name" c rest,
  )

  abbrev dataset_template : List Segment → List Segment
  dataset_template ts = literal "datasets" ∷ param "namespace" ∷ path_param "name" ∷ ts

  dispatch_routes :
      (method : String) (path : List String)
      → api.dispatch routes method path ≡ (
          if str_eq "POST" method && api.matches (literal "" ∷ []) path
          then some post_event
          else if str_eq "GET" method
              && api.matches (literal "jobs" ∷ param "dhp_job_id" ∷ literal "runs" ∷ []) path
          then some get_runs
          else if str_eq "GET" method && api.matches (dataset_template []) path
          then some get_one
          else none)
  dispatch_routes method path =
      let up = matches_shadowed (literal "upstream" ∷ []) path in
      let down = matches_shadowed (literal "downstream" ∷ []) path in
      rw
        (
          fast.dispatch_first, fast.dispatch_first, fast.dispatch_first, fast.dispatch_first,
          fast.dispatch_first, fast.dispatch_none,
        )
        (ground arith)

-- Whatever the request, FastAPI's dispatch over the routes of the lineage service never reaches the
-- endpoints for upstream and downstream: a GET of a path with a name under a dataset's namespace,
-- with or without a last segment "upstream" or "downstream", is served by `get_dataset`.
pub graph_routes_unreached :
    (api : Dispatcher) (method : String) (path : List String)
    → IsFastApi api
    → (api.dispatch routes method path ≢ some get_upstream)
      × (api.dispatch routes method path ≢ some get_downstream)
      × ((ns name : String) (rest : List String)
          → api.dispatch routes "GET" ("datasets" ∷ ns ∷ name ∷ rest) ≡ some get_one)
graph_routes_unreached api method path fast =
    let served = dispatch_routes api fast method path in
    (
      λ h. ground arith,
      λ h. ground arith,
      λ ns name rest.
          let found = dispatch_routes api fast "GET" ("datasets" ∷ ns ∷ name ∷ rest) in
          ground (
            arith,
            fast.matches_literal "" "datasets" [] (ns ∷ name ∷ rest),
            fast.matches_literal "jobs" "datasets" (param "dhp_job_id" ∷ literal "runs" ∷ [])
                (ns ∷ name ∷ rest),
            fast.matches_literal "datasets" "datasets" (param "namespace" ∷ path_param "name" ∷ [])
                (ns ∷ name ∷ rest),
            fast.matches_param "namespace" ns (path_param "name" ∷ []) (name ∷ rest),
            fast.matches_path "name" name rest,
          ),
    )
