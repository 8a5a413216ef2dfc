-- ===== src/Lineage/Walk.antt =====
-- The rows of the recursive query, level by level, and the datasets that so many hops reach.
use dhp.Prelude.{ℕ, zero, suc, ◌+◌, ◌≤◌, List, map, ◌≡◌, inl, inr, ◌↔◌, sym, ◌∙◌, ap, arith, eq_iff}
use dhp.Prelude.Members.{flat_map, Memᴰ-keep, Memᴰ-flat_map}
use mathlib.Core.List.{Memᴰ}
use mathlib.Core.List.Memᴰ
use dhp.Lineage.{LineageDataset, Edge, LineageNode}
use dhp.Lineage.Graph.{step, node_at, walk}

-- `c` and `d` are datasets of one run, on the two sides.
pub record IsHop (near far : List Edge) (c d : LineageDataset) : Type 0 where
  e : Edge
  f : Edge
  on_near : Memᴰ e near
  on_far : Memᴰ f far
  here : e.dataset_id ≡ c.dataset_id
  run : f.run_id ≡ e.run_id
  there : d.dataset_id ≡ f.dataset_id

module _ (near far : List Edge) (datasets : List LineageDataset) where
  -- The datasets that so many hops from the datasets of a list reach.
  abbrev pub Reaches : (LineageDataset → Type 0) → ℕ → LineageDataset → Type 0
  Reaches Root zero d = Root d
  Reaches Root (suc k) d =
      (c : LineageDataset) × Reaches Root k c × Memᴰ d datasets × IsHop near far c d

  reached_from_next :
      (Root : LineageDataset → Type 0) (k : ℕ) (d : LineageDataset)
      → Reaches (Reaches Root 1) k d ↔ Reaches Root (suc k) d
  reached_from_next Root zero d = (λ r. r, λ r. r)
  reached_from_next Root (suc k) d = (
    λ (c, r, m, h). (c, (reached_from_next Root k c).0 r, m, h),
    λ (c, r, m, h). (c, (reached_from_next Root k c).1 r, m, h),
  )

  step-IsHop :
      (c d : LineageDataset)
      → Memᴰ d (step near far datasets c) ↔ (Memᴰ d datasets × IsHop near far c d)
  step-IsHop c d = (hop, λ (m, h). stepped m h)
    where
      hop : Memᴰ d (step near far datasets c) → Memᴰ d datasets × IsHop near far c d
      hop m =
          let (e, near_e, m1) = (Memᴰ-flat_map _ d _).0 m in
          let (f, far_f, m2) = (Memᴰ-flat_map _ d _).0 m1 in
          let (in_near, here) = (Memᴰ-keep _ e near).0 near_e in
          let (in_far, run) = (Memᴰ-keep _ f far).0 far_f in
          let (there, same) = (Memᴰ-keep _ d datasets).0 m2 in
          (
            there,
            record {
              e = e;
              f = f;
              on_near = in_near;
              on_far = in_far;
              here = (eq_iff e.dataset_id c.dataset_id).0 here;
              run = (eq_iff f.run_id e.run_id).0 run;
              there = (eq_iff d.dataset_id f.dataset_id).0 same;
            },
          )

      stepped : Memᴰ d datasets → IsHop near far c d → Memᴰ d (step near far datasets c)
      stepped m h = (Memᴰ-flat_map _ d _).1 (
        h.e,
        (Memᴰ-keep _ h.e near).1 (h.on_near, (eq_iff h.e.dataset_id c.dataset_id).1 h.here),
        (Memᴰ-flat_map _ d _).1 (
          h.f,
          (Memᴰ-keep _ h.f far).1 (h.on_far, (eq_iff h.f.run_id h.e.run_id).1 h.run),
          (Memᴰ-keep _ d datasets).1 (m, (eq_iff d.dataset_id h.f.dataset_id).1 h.there),
        ),
      )

  abbrev pub levels : ℕ → List LineageDataset → List LineageDataset
  levels zero rows = rows
  levels (suc k) rows = levels k (flat_map (step near far datasets) rows)

  pub levels-Reaches :
      (k : ℕ) (rows : List LineageDataset) (Root : LineageDataset → Type 0)
      → ((d : LineageDataset) → Memᴰ d rows ↔ Root d)
      → (d : LineageDataset) → Memᴰ d (levels k rows) ↔ Reaches Root k d
  levels-Reaches zero rows Root h d = h d
  levels-Reaches (suc k) rows Root h d =
      let next = flat_map (step near far datasets) rows in
      let below =
        levels-Reaches k next (Reaches Root 1)
          (λ c. (
            λ m.
                let (b, there, n) = (Memᴰ-flat_map (step near far datasets) c rows).0 m in
                let (there', hop) = (step-IsHop b c).0 n in (b, (h b).0 there, there', hop),
            λ (b, r, there, hop).
                (Memᴰ-flat_map (step near far datasets) c rows).1
                  (b, (h b).1 r, (step-IsHop b c).1 (there, hop)),
          ))
          d in
      let shift = reached_from_next Root k d in (λ m. shift.0 (below.0 m), λ r. below.1 (shift.1 r))

  -- The rows of the walk.
  pub walk-levels :
      (n depth : ℕ) (rows : List LineageDataset) (a : LineageNode)
      → Memᴰ a (walk near far datasets n depth rows) ↔ (
          (k : ℕ) × (k ≤ n)
          × (d : LineageDataset) × Memᴰ d (levels k rows)
          × (node_at (k + depth) d ≡ a))
  walk-levels n depth rows a = (from n depth rows, λ (k, le, d, m, e). into n depth rows k le m e)
    where
      from :
          (n depth : ℕ) (rows : List LineageDataset)
          → Memᴰ a (walk near far datasets n depth rows)
          → (k : ℕ) × (k ≤ n)
            × (d : LineageDataset) × Memᴰ d (levels k rows)
            × (node_at (k + depth) d ≡ a)
      from zero depth rows m =
          let (d, there, e) = Memᴰ.of_map (node_at depth) rows m in
          (0, omega arith, d, there, ap (λ i. node_at i d) (omega arith) ∙ e)
      from (suc n) depth rows m = elim (Memᴰ.append_cases (map (node_at depth) rows) m) [
        | inl here ↦
            let (d, there, e) = Memᴰ.of_map (node_at depth) rows here in
            (0, omega arith, d, there, ap (λ i. node_at i d) (omega arith) ∙ e)
        | inr later ↦
            let (k, le, d, there, e) =
              from n (suc depth) (flat_map (step near far datasets) rows) later in
            (suc k, omega arith, d, there, ap (λ i. node_at i d) (omega arith) ∙ e)
      ]

      into :
          (n depth : ℕ) (rows : List LineageDataset) (k : ℕ) {d : LineageDataset}
          → k ≤ n
          → Memᴰ d (levels k rows)
          → node_at (k + depth) d ≡ a
          → Memᴰ a (walk near far datasets n depth rows)
      into zero depth rows zero {d} le m e =
          Memᴰ.cast (sym e ∙ ap (λ i. node_at i d) (omega arith)) (Memᴰ.map (node_at depth) m)
      into zero depth rows (suc k) le m e = absurd (omega arith)
      into (suc n) depth rows zero {d} le m e =
          Memᴰ.append_left
            (walk near far datasets n (suc depth) (flat_map (step near far datasets) rows))
            (Memᴰ.cast (sym e ∙ ap (λ i. node_at i d) (omega arith)) (Memᴰ.map (node_at depth) m))
      into (suc n) depth rows (suc k) {d} le m e = Memᴰ.append_right (map (node_at depth) rows) (
          into n (suc depth) (flat_map (step near far datasets) rows) k (omega arith) m
            (ap (λ i. node_at i d) (omega arith) ∙ e))
