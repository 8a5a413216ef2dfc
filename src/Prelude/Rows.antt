-- ===== src/Prelude/Rows.antt =====
-- A database table as a list of rows in insertion order, with a text column as the key of a lookup.
use mathlib.Core.Path.{◌≡◌, refl, sym, subst}
use mathlib.Core.Logic.{inl, inr}
use mathlib.Core.Bool.{Bool, true, false}
use mathlib.Core.Option.{Option, none, some}
use mathlib.Core.List.{List, [], ◌∷◌, ◌++◌, map}
use Prim.Native.String.{String}
use native.Mathlib.Omega.{arith}
use text.Mathlib.Text.{◌==◌ as str_eq}
use text.Mathlib.TextEquality.{eq_iff}
use text.Mathlib.TextPositions.{eq_refl}
use dhp.Prelude.Tests.{if◌then◌else◌, is_some, Bool-cases}
use dhp.Prelude.Lists.{All, All-imp}

abbrev pub mem : String → List String → Bool
mem s [] = false
mem s (t ∷ ts) = if str_eq t s then true else mem s ts

-- A UNIQUE constraint on a column.
abbrev pub Distinct : List String → Type 0
Distinct [] = Unit
Distinct (s ∷ ss) = (mem s ss ≡ false) × Distinct ss

module _ {ℓ} {A : Type ℓ} (key : A → String) where
  -- `select(A).where(A.key == k)` with `scalar_one_or_none`
  abbrev pub find : String → List A → Option A
  find k [] = none
  find k (r ∷ rs) = if str_eq (key r) k then some r else find k rs

  -- The UPDATE of a changed row.
  abbrev pub save : A → List A → List A
  save r [] = []
  save r (s ∷ rs) = if str_eq (key s) (key r) then r ∷ rs else s ∷ save r rs

  -- The DELETE of a row.
  abbrev pub remove : String → List A → List A
  remove k [] = []
  remove k (r ∷ rs) = if str_eq (key r) k then rs else r ∷ remove k rs

mem-append_other :
    (s t : String) (ss : List String)
    → mem s ss ≡ false
    → str_eq t s ≡ false
    → mem s (ss ++ t ∷ []) ≡ false
mem-append_other s t [] h e = ground arith
mem-append_other s t (u ∷ us) h e = ground (arith, mem-append_other s t us)

Distinct-append :
    (s : String) (ss : List String) → mem s ss ≡ false → Distinct ss → Distinct (ss ++ s ∷ [])
Distinct-append s [] h d = (refl, tt)
Distinct-append s (t ∷ ts) h d =
    ground (arith, Distinct-append s ts, mem-append_other t s ts, eq_iff t s, eq_iff s t)

module _ {ℓ} {A : Type ℓ} (key : A → String) where
  mem-map : (k : String) (rs : List A) → mem k (map key rs) ≡ is_some (find key k rs)
  mem-map k [] = refl
  mem-map k (r ∷ rs) = ground (arith, mem-map k rs)

  map-append_one : (r : A) (rs : List A) → map key (rs ++ r ∷ []) ≡ map key rs ++ key r ∷ []
  map-append_one r [] = refl
  map-append_one r (s ∷ rs) = rw (map-append_one r rs)

  pub add-Distinct :
      (r : A) (rs : List A)
      → find key (key r) rs ≡ none
      → Distinct (map key rs)
      → Distinct (map key (rs ++ r ∷ []))
  add-Distinct r rs fresh d =
      rw (map-append_one r rs)
        (Distinct-append (key r) (map key rs) (rw (mem-map (key r) rs, fresh)) d)

  pub key-find : (k : String) (rs : List A) {r : A} → find key k rs ≡ some r → key r ≡ k
  key-find k [] h = cc
  key-find k (s ∷ rs) {r} h = ground (arith, key-find k rs {r = r}, eq_iff (key s) k)

  pub find_found :
      (k : String) (rs : List A) {r : A} → find key k rs ≡ some r → find key (key r) rs ≡ some r
  find_found k rs {r} h = subst (λ i. find key i rs ≡ some r) (sym (key-find k rs h)) h

  pub find-save :
      (k : String) (r : A) (rs : List A)
      → find key k (save key r rs) ≡ (
          if str_eq (key r) k
          then (if is_some (find key k rs) then some r else none)
          else find key k rs)
  find-save k r [] = ground arith
  find-save k r (s ∷ rs) =
      ground (arith, find-save k r rs, eq_iff (key s) (key r), eq_iff (key s) k, eq_iff (key r) k)

  -- To save a row as it was found changes nothing.
  pub save-find : (r : A) (rs : List A) → find key (key r) rs ≡ some r → save key r rs ≡ rs
  save-find r [] h = refl
  save-find r (s ∷ rs) h = ground (arith, save-find r rs, eq_iff (key s) (key r))

  pub find-append :
      (k : String) (r : A) (rs : List A)
      → find key k (rs ++ r ∷ []) ≡ (
          if is_some (find key k rs)
          then find key k rs
          else (if str_eq (key r) k then some r else none))
  find-append k r [] = ground arith
  find-append k r (s ∷ rs) = ground (arith, find-append k r rs)

  pub find-remove_other :
      (k j : String) (rs : List A)
      → str_eq k j ≡ false
      → find key j (remove key k rs) ≡ find key j rs
  find-remove_other k j [] e = refl
  find-remove_other k j (r ∷ rs) e =
      ground (arith, find-remove_other k j rs, eq_iff (key r) k, eq_iff (key r) j, eq_iff k j)

  pub find-remove :
      (k : String) (rs : List A) → Distinct (map key rs) → find key k (remove key k rs) ≡ none
  find-remove k [] d = refl
  find-remove k (r ∷ rs) d =
      ground (arith, find-remove k rs d.1, mem-map (key r) rs, eq_iff (key r) k)

  -- A column that a change of the row keeps is kept in the whole table.
  pub map-save {μ} :
      {B : Type μ} (col : A → B) (r : A) (rs : List A) {old : A}
      → find key (key r) rs ≡ some old
      → col r ≡ col old
      → map col (save key r rs) ≡ map col rs
  map-save col r [] h e = refl
  map-save col r (s ∷ rs) {old} h e =
      ground (arith, map-save col r rs {old = old}, eq_iff (key s) (key r))

  mem-remove :
      (col : A → String) (k s : String) (rs : List A)
      → mem s (map col rs) ≡ false
      → mem s (map col (remove key k rs)) ≡ false
  mem-remove col k s [] h = refl
  mem-remove col k s (r ∷ rs) h = ground (arith, mem-remove col k s rs)

  pub remove-Distinct :
      (col : A → String) (k : String) (rs : List A)
      → Distinct (map col rs)
      → Distinct (map col (remove key k rs))
  remove-Distinct col k [] d = tt
  remove-Distinct col k (r ∷ rs) d =
      ground (arith, remove-Distinct col k rs d.1, mem-remove col k (col r) rs)

  -- A row of a table whose key is unique is the one that its key finds.
  pub find_self : (rs : List A) → Distinct (map key rs) → All (λ r. find key (key r) rs ≡ some r) rs
  find_self [] d = tt
  find_self (r ∷ rs) d = (
    ground (arith, eq_refl (key r)),
    All-imp (λ s. find key (key s) rs ≡ some s) (λ s. find key (key s) (r ∷ rs) ≡ some s) rs
        (λ s e. ground (arith, mem-map (key r) rs, eq_iff (key r) (key s))) (find_self rs d.1),
  )

  module _ {κ} (P : A → Type κ) where
    pub save-All : (r : A) (rs : List A) → P r → All P rs → All P (save key r rs)
    save-All r [] h a = tt
    save-All r (s ∷ rs) h a = elim (Bool-cases (str_eq (key s) (key r))) [
      | inl e ↦ rw e (h, a.1)
      | inr e ↦ rw e (a.0, save-All r rs h a.1)
    ]

    pub remove-All : (k : String) (rs : List A) → All P rs → All P (remove key k rs)
    remove-All k [] a = tt
    remove-All k (r ∷ rs) a = elim (Bool-cases (str_eq (key r) k)) [
      | inl e ↦ rw e a.1
      | inr e ↦ rw e (a.0, remove-All k rs a.1)
    ]

    pub find-All : (k : String) (rs : List A) {r : A} → All P rs → find key k rs ≡ some r → P r
    find-All k [] a e = cc
    find-All k (s ∷ rs) {r} a e = elim (Bool-cases (str_eq (key s) k)) [
      | inl t ↦ subst P (cc t) a.0
      | inr t ↦ find-All k rs a.1 (rw t at e)
    ]
