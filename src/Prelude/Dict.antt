-- ===== src/Prelude/Dict.antt =====
-- Python's `dict` with text keys, in insertion order.
use Prim.Native.String.{String}
use mathlib.Core.Path.{◌≡◌, refl}
use mathlib.Core.Bool.{Bool}
use mathlib.Core.List.{List, [], ◌∷◌}
use mathlib.Core.Option.{Option, none, some}
use native.Mathlib.Omega.{arith}
use text.Mathlib.Text.{◌==◌ as str_eq}
use text.Mathlib.TextEquality.{eq_iff}
use text.Mathlib.TextPositions.{eq_refl}
use dhp.Prelude.Tests.{if◌then◌else◌, is_some}
use dhp.Prelude.Lists.{All, All-imp}

abbrev pub Dict {ℓ} : Type ℓ → Type ℓ
Dict V = List (String × V)

module _ {ℓ} {V : Type ℓ} where
  -- `d.get(k)`
  abbrev pub lookup : String → Dict V → Option V
  lookup k [] = none
  lookup k ((j, v) ∷ d) = if str_eq j k then some v else lookup k d

  -- `k in d`
  abbrev pub contains : String → Dict V → Bool
  contains k d = is_some (lookup k d)

  -- `d[k] = v`: a key that is there keeps its place
  abbrev pub insert : String → V → Dict V → Dict V
  insert k v [] = (k, v) ∷ []
  insert k v ((j, w) ∷ d) = if str_eq j k then (j, v) ∷ d else (j, w) ∷ insert k v d

  -- `{**d, **e}`: the entries of `e` win
  abbrev pub merge : Dict V → Dict V → Dict V
  merge d [] = d
  merge d ((k, v) ∷ e) = merge (insert k v d) e

module _ {ℓ} {V : Type ℓ} where
  pub lookup-insert :
      (k j : String) (v : V) (d : Dict V)
      → lookup j (insert k v d) ≡ (if str_eq k j then some v else lookup j d)
  lookup-insert k j v [] = refl
  lookup-insert k j v ((i, w) ∷ d) =
      ground (arith, eq_iff k j, eq_iff i k, eq_iff i j, lookup-insert k j v d)

  pub insert_same : (k : String) (v : V) (d : Dict V) → lookup k d ≡ some v → insert k v d ≡ d
  insert_same k v [] h = cc
  insert_same k v ((i, w) ∷ d) h = ground (arith, insert_same k v d)

  -- The keys of a dict are distinct.
  abbrev pub DistinctKeys : Dict V → Type ℓ
  DistinctKeys [] = Unit
  DistinctKeys ((k, v) ∷ d) = (lookup k d ≡ none) × DistinctKeys d

  -- A dict whose entries are all there adds nothing.
  pub merge_absorbed : (d e : Dict V) → All (λ (k, v). lookup k d ≡ some v) e → merge d e ≡ d
  merge_absorbed d [] a = refl
  merge_absorbed d ((k, v) ∷ e) a = rw (insert_same k v d a.0) (merge_absorbed d e a.1)

  pub lookup-merge :
      (k : String) (d e : Dict V)
      → DistinctKeys e
      → lookup k (merge d e) ≡ (if is_some (lookup k e) then lookup k e else lookup k d)
  lookup-merge k d [] a = refl
  lookup-merge k d ((j, v) ∷ e) a =
      ground (arith, lookup-merge k (insert j v d) e, lookup-insert j k v d, eq_iff j k)

  insert-DistinctKeys :
      (k : String) (v : V) (d : Dict V) → DistinctKeys d → DistinctKeys (insert k v d)
  insert-DistinctKeys k v [] a = (refl, tt)
  insert-DistinctKeys k v ((j, w) ∷ d) a =
      ground (arith, insert-DistinctKeys k v d a.1, lookup-insert k j v d, eq_iff j k, eq_iff k j)

  pub merge-DistinctKeys : (d e : Dict V) → DistinctKeys d → DistinctKeys (merge d e)
  merge-DistinctKeys d [] a = a
  merge-DistinctKeys d ((k, v) ∷ e) a =
      merge-DistinctKeys (insert k v d) e (insert-DistinctKeys k v d a)

  pub entries_found : (d : Dict V) → DistinctKeys d → All (λ (k, v). lookup k d ≡ some v) d
  entries_found [] a = tt
  entries_found ((k, v) ∷ d) a = (
    ground (arith, eq_refl k),
    All-imp (λ (j, w). lookup j d ≡ some w) (λ (j, w). lookup j ((k, v) ∷ d) ≡ some w) d
        (λ (j, w) e. ground (arith, eq_iff k j)) (entries_found d a.1),
  )

  -- To merge a dict twice is to merge it once.
  pub merge_twice : (d e : Dict V) → DistinctKeys e → merge (merge d e) e ≡ merge d e
  merge_twice d e a = merge_absorbed (merge d e) e (
      All-imp (λ (k, v). lookup k e ≡ some v) (λ (k, v). lookup k (merge d e) ≡ some v) e
        (λ (k, v) h. ground (arith, lookup-merge k d e a)) (entries_found e a))

  pub merge_self : (d : Dict V) → DistinctKeys d → merge d d ≡ d
  merge_self d a = merge_absorbed d d (entries_found d a)
