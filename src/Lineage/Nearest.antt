-- ===== src/Lineage/Nearest.antt =====
-- The grouping and the order of the lineage query: which rows stay.
use dhp.Prelude.{
  ℕ, ◌≤◌, String, Bool, true, List, [], ◌∷◌, ◌≡◌, ◌⊎◌, inl, inr, ◌↔◌, refl, sym, ◌∙◌, ap, subst,
  arith, eq_iff, ltb, Bool-cases,
}
use mathlib.Core.List.{Memᴰ}
use mathlib.Core.List.Memᴰ
use mathlib.Core.Logic.{⊎_elim}
use dhp.Prelude.Members.{Memᴰ-keep}
use dhp.Lineage.{LineageNode}
use dhp.Lineage.Graph.{
  same_name, same_node, min_depth, with_min, distinct, grouped, precedes, insert, ordered,
}

-- The node of the same name at another depth.
abbrev pub at_depth : LineageNode → ℕ → LineageNode
at_depth a k = record a { depth = k }

same_name_at : (a b : LineageNode) → same_name a b ≡ true → at_depth a b.depth ≡ b
same_name_at a b h = ground (arith, eq_iff a.namespace b.namespace, eq_iff a.name b.name)

same_name_refl : (a : LineageNode) (k : ℕ) → same_name a (at_depth a k) ≡ true
same_name_refl a k = ground (arith, eq_iff a.namespace a.namespace, eq_iff a.name a.name)

same_node_eq : (a b : LineageNode) → same_node a b ≡ true → a ≡ b
same_node_eq a b h = ground (arith, eq_iff a.namespace b.namespace, eq_iff a.name b.name)

min_depth_own : (a : LineageNode) (rows : List LineageNode) → min_depth a rows ≤ a.depth
min_depth_own a [] = omega arith
min_depth_own a (b ∷ rows) = ground (arith, min_depth_own a rows)

min_depth_le :
    (a : LineageNode) (rows : List LineageNode) {k : ℕ}
    → Memᴰ (at_depth a k) rows
    → min_depth a rows ≤ k
min_depth_le a [] m = absurd (Memᴰ.not-nil m)
min_depth_le a (b ∷ rows) {k} m = elim (Memᴰ.cases_cons m) [
  | inl same ↦
      let named : same_name a b ≡ true =
        subst (λ c. same_name a c ≡ true) same (same_name_refl a k) in
      let deep : k ≡ b.depth = ap (λ (c : LineageNode). c.depth) same in ground arith
  | inr there ↦ let below = min_depth_le a rows there in ground arith
]

min_depth_attained :
    (a : LineageNode) (rows : List LineageNode)
    → (min_depth a rows ≡ a.depth) ⊎ Memᴰ (at_depth a (min_depth a rows)) rows
min_depth_attained a [] = inl refl
min_depth_attained a (b ∷ rows) = elim (Bool-cases (same_name a b)) [
  | inr other ↦
      rw other (elim (min_depth_attained a rows) [ inl own ↦ inl own | inr m ↦ inr (Memᴰ.tail m) ])
  | inl named ↦ elim (Bool-cases (ltb b.depth (min_depth a rows))) [
    | inl less ↦
        let here : min_depth a (b ∷ rows) ≡ b.depth = ground arith in
        inr (Memᴰ.head (ap (at_depth a) here ∙ same_name_at a b named))
    | inr more ↦
        let rest : min_depth a (b ∷ rows) ≡ min_depth a rows = ground arith in
        elim (min_depth_attained a rows) [
          | inl own ↦ inl (rest ∙ own)
          | inr m ↦ inr (Memᴰ.tail (Memᴰ.cast (ap (at_depth a) rest) m))
        ]
  ]
]

distinct_mem : (a : LineageNode) (rows : List LineageNode) → Memᴰ a (distinct rows) ↔ Memᴰ a rows
distinct_mem a rows = (from rows, into rows)
  where
    from : (rows : List LineageNode) → Memᴰ a (distinct rows) → Memᴰ a rows
    from [] m = m
    from (b ∷ rows) m = elim (Memᴰ.cases_cons m) [
      | inl same ↦ Memᴰ.head same
      | inr there ↦ Memᴰ.tail (from rows ((Memᴰ-keep _ a (distinct rows)).0 there).0)
    ]

    into : (rows : List LineageNode) → Memᴰ a rows → Memᴰ a (distinct rows)
    into [] m = m
    into (b ∷ rows) m = elim (Memᴰ.cases_cons m) [
      | inl same ↦ Memᴰ.head same
      | inr there ↦ elim (Bool-cases (same_node a b)) [
        | inl same ↦ Memᴰ.head (same_node_eq a b same)
        | inr other ↦ Memᴰ.tail ((Memᴰ-keep _ a (distinct rows)).1 (into rows there, rw other))
      ]
    ]

-- A row is at the least depth of its name.
abbrev pub IsNearest : List LineageNode → LineageNode → Type 0
IsNearest rows a = Memᴰ a rows × ((k : ℕ) → Memᴰ (at_depth a k) rows → a.depth ≤ k)

pub grouped-IsNearest :
    (rows : List LineageNode) (a : LineageNode) → Memᴰ a (grouped rows) ↔ IsNearest rows a
grouped-IsNearest rows a = (
  λ m.
      let (b, there, e) = Memᴰ.of_map (with_min rows) rows ((distinct_mem a _).0 m) in
      subst (IsNearest rows) e (
        elim (min_depth_attained b rows) [
          | inl own ↦ Memᴰ.cast (ap (at_depth b) own) there
          | inr found ↦ found
        ],
        λ k other. min_depth_le b rows other,
      ),
  λ (m, least).
      let own = min_depth_own a rows in
      let same : min_depth a rows ≡ a.depth = elim (min_depth_attained a rows) [
        | inl e ↦ e
        | inr found ↦ let above = least (min_depth a rows) found in omega arith
      ] in
      (distinct_mem a _).1 (Memᴰ.cast (sym (ap (at_depth a) same)) (Memᴰ.map (with_min rows) m)),
)

module _ (le : String → String → Bool) where
  insert_mem :
      (a b : LineageNode) (rows : List LineageNode)
      → Memᴰ a (insert le b rows) ↔ ((a ≡ b) ⊎ Memᴰ a rows)
  insert_mem a b rows = (from rows, into rows)
    where
      from : (rows : List LineageNode) → Memᴰ a (insert le b rows) → (a ≡ b) ⊎ Memᴰ a rows
      from [] m = Memᴰ.cases_cons m
      from (c ∷ rows) m = elim (Bool-cases (precedes le b c)) [
        | inl first ↦ Memᴰ.cases_cons (rw first at m)
        | inr later ↦ elim (Memᴰ.cases_cons {l = insert le b rows} (rw later at m)) [
          | inl same ↦ inr (Memᴰ.head same)
          | inr there ↦ ⊎_elim inl (λ n. inr (Memᴰ.tail n)) (from rows there)
        ]
      ]

      into : (rows : List LineageNode) → (a ≡ b) ⊎ Memᴰ a rows → Memᴰ a (insert le b rows)
      into [] h = ⊎_elim Memᴰ.head Memᴰ.tail h
      into (c ∷ rows) h = elim (Bool-cases (precedes le b c)) [
        | inl first ↦ rw first (⊎_elim Memᴰ.head Memᴰ.tail h)
        | inr later ↦ rw later (elim h [
          | inl same ↦ Memᴰ.tail (into rows (inl same))
          | inr m ↦ elim (Memᴰ.cases_cons m) [
            | inl same ↦ Memᴰ.head same
            | inr there ↦ Memᴰ.tail (into rows (inr there))
          ]
        ])
      ]

  pub ordered_mem :
      (a : LineageNode) (rows : List LineageNode) → Memᴰ a (ordered le rows) ↔ Memᴰ a rows
  ordered_mem a [] = (λ m. m, λ m. m)
  ordered_mem a (b ∷ rows) =
      let rest = ordered_mem a rows in
      let put = insert_mem a b (ordered le rows) in
      (
        λ m. ⊎_elim Memᴰ.head (λ n. Memᴰ.tail (rest.0 n)) (put.0 m),
        λ m. put.1 (⊎_elim inl (λ n. inr (rest.1 n)) (Memᴰ.cases_cons m)),
      )
