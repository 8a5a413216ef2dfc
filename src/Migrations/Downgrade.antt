-- ===== src/Migrations/Downgrade.antt =====
-- The chain of revisions, upgraded and downgraded again.
use dhp.Prelude.{
  ℕ, zero, suc, Bool, true, some, List, [], ◌∷◌, ◌++◌, ◌≡◌, refl, sym, ap, ◌∙◌, subst, arith, take,
  drop, All, All-append, append-nil, append_assoc, take-append-drop, ◌&&◌,
}
use dhp.Migrations.{Schema, Statement, Migration, run, run_all, upgrades, downgrades}
use dhp.Migrations.Baseline.{baseline}
use dhp.Migrations.ScheduledJobs.{scheduled}
use dhp.Migrations.LineageTables.{lineage}
use dhp.Migrations.Frame.{over, lift, is_fresh, frame_all}

-- The revisions in the order in which `down_revision` links them.
abbrev pub chain : List Migration
chain = baseline ∷ scheduled ∷ lineage ∷ []

abbrev pub all {ℓ} : {A : Type ℓ} → (A → Bool) → List A → Bool
all p [] = true
all p (x ∷ xs) = p x && all p xs

-- No statement of the revisions names something that the schema holds, but for the extension, which is there.
abbrev pub is_clear : Schema → Bool
is_clear d = all (is_fresh d) (upgrades chain ++ downgrades chain)

module _ {ℓ} {A : Type ℓ} (p : A → Bool) where
  pub All-all : (xs : List A) → all p xs ≡ true → All (λ x. p x ≡ true) xs
  All-all [] h = tt
  All-all (x ∷ xs) h = (ground arith, All-all xs (ground arith))

pub All-split :
    (P : Statement → Type 0) (xs ys : List Statement) → All P (xs ++ ys) → All P xs × All P ys
All-split P [] ys a = (tt, a)
All-split P (x ∷ xs) ys a = let (l, r) = All-split P xs ys a.1 in ((a.0, l), r)

pub upgrades-append : (ms ns : List Migration) → upgrades (ms ++ ns) ≡ upgrades ms ++ upgrades ns
unfolding upgrades
upgrades-append [] ns = refl
upgrades-append (m ∷ ms) ns =
    rw (upgrades-append ms ns) (sym (append_assoc m.upgrade (upgrades ms) (upgrades ns)))

downgrades-append :
    (ms ns : List Migration) → downgrades (ms ++ ns) ≡ downgrades ns ++ downgrades ms
unfolding downgrades
downgrades-append [] ns = sym (append-nil (downgrades ns))
downgrades-append (m ∷ ms) ns =
    rw (downgrades-append ms ns) (append_assoc (downgrades ns) (downgrades ms) m.downgrade)

abbrev bare : Schema
bare = record {
  extensions = "uuid-ossp" ∷ [];
  tables = [];
  indexes = [];
  functions = [];
  triggers = [];
}

over-bare : (d : Schema) → over d bare ≡ d
over-bare d =
    rw (append-nil d.tables, append-nil d.indexes, append-nil d.functions, append-nil d.triggers)

abbrev there_and_back : ℕ → List Statement
there_and_back i = upgrades (drop i chain) ++ downgrades (drop i chain)

-- The chain on a schema that holds the extension alone.
bare_restored :
    (i : ℕ)
    → (o : Schema) × (run_all (upgrades (take i chain)) bare ≡ some o)
      × (run_all (there_and_back i) o ≡ some o)
unfolding run run_all upgrades downgrades
bare_restored zero = (_, refl, refl)
bare_restored (suc zero) = (_, refl, refl)
bare_restored (suc (suc zero)) = (_, refl, refl)
bare_restored (suc (suc (suc zero))) = (_, refl, refl)
bare_restored (suc (suc (suc (suc i)))) = (_, refl, refl)

fresh_parts :
    (i : ℕ) (d : Schema)
    → is_clear d ≡ true
    → All (λ s. is_fresh d s ≡ true) (upgrades (take i chain))
      × All (λ s. is_fresh d s ≡ true) (there_and_back i)
fresh_parts i d clear =
    let Fresh : Statement → Type 0 = λ s. is_fresh d s ≡ true in
    let below = take i chain in
    let above = drop i chain in
    let (ups, downs) =
      All-split Fresh (upgrades chain) (downgrades chain)
        (All-all (is_fresh d) (upgrades chain ++ downgrades chain) clear) in
    let whole = sym (take-append-drop i chain) in
    let (u, v) =
      All-split Fresh (upgrades below) (upgrades above)
        (subst (All Fresh) (ap upgrades whole ∙ upgrades-append below above) ups) in
    let (x, y) =
      All-split Fresh (downgrades above) (downgrades below)
        (subst (All Fresh) (ap downgrades whole ∙ downgrades-append below above) downs) in
    (u, All-append Fresh (upgrades above) (downgrades above) v x)

-- On a schema that holds the extension and otherwise nothing that the revisions name, of any other tables,
-- the upgrade to any revision succeeds, and from there the upgrade to the newest one and the downgrade
-- back to the revision succeed and leave the schema exactly as it was.
pub downgrade_restores :
    (i : ℕ) (d : Schema)
    → is_clear d ≡ true
    → (x : Schema) × (run_all (upgrades (take i chain)) d ≡ some x)
      × (run_all (upgrades (drop i chain) ++ downgrades (drop i chain)) x ≡ some x)
downgrade_restores i d clear =
    let (o, up, back) = bare_restored i in
    let (fresh, again) = fresh_parts i d clear in
    (
      over d o,
      ap (run_all (upgrades (take i chain))) (sym (over-bare d))
          ∙ frame_all d (upgrades (take i chain)) bare fresh
          ∙ ap (lift d) up,
      frame_all d (there_and_back i) o again ∙ ap (lift d) back,
    )
