-- ===== src/Prelude/Members.antt =====
-- Membership in the lists that comprehensions and joins build.
use mathlib.Core.Path.{◌≡◌, refl, sym, subst, ap, ◌∙◌}
use mathlib.Core.Logic.{inl, inr, ◌↔◌, ⊎_elim}
use mathlib.Core.Bool.{Bool, true}
use mathlib.Core.List.{List, [], ◌∷◌, ◌++◌, Memᴰ}
use mathlib.Core.List.Memᴰ
use dhp.Prelude.Tests.{Bool-cases}
use dhp.Prelude.Lists.{keep}

module _ {ℓ} {A : Type ℓ} where
  abbrev pub flat_map {κ} : {B : Type κ} → (A → List B) → List A → List B
  flat_map f [] = []
  flat_map f (x ∷ xs) = f x ++ flat_map f xs

  pub Memᴰ-keep :
      (p : A → Bool) (a : A) (xs : List A) → Memᴰ a (keep p xs) ↔ (Memᴰ a xs × (p a ≡ true))
  Memᴰ-keep p a xs = (kept xs, λ (m, e). keeps xs m e)
    where
      kept : (xs : List A) → Memᴰ a (keep p xs) → Memᴰ a xs × (p a ≡ true)
      kept [] m = absurd (Memᴰ.not-nil m)
      kept (x ∷ xs) m = elim (Bool-cases (p x)) [
        | inl e ↦
            ⊎_elim (λ same. (Memᴰ.head same, ap p same ∙ e))
              (λ n. (Memᴰ.tail (kept xs n).0, (kept xs n).1)) (Memᴰ.cases_cons (rw e at m))
        | inr e ↦ let n : Memᴰ a (keep p xs) = rw e at m in (Memᴰ.tail (kept xs n).0, (kept xs n).1)
      ]

      keeps : (xs : List A) → Memᴰ a xs → p a ≡ true → Memᴰ a (keep p xs)
      keeps [] m e = absurd (Memᴰ.not-nil m)
      keeps (x ∷ xs) m e = elim (Memᴰ.cases_cons m) [
        | inl same ↦ rw (sym (ap p same) ∙ e) (Memᴰ.head same)
        | inr n ↦ elim (Bool-cases (p x)) [
          | inl t ↦ rw t (Memᴰ.tail (keeps xs n e))
          | inr t ↦ rw t (keeps xs n e)
        ]
      ]

  pub Memᴰ-flat_map {κ} :
      {B : Type κ} (f : A → List B) (b : B) (xs : List A)
      → Memᴰ b (flat_map f xs) ↔ ((a : A) × Memᴰ a xs × Memᴰ b (f a))
  Memᴰ-flat_map {B} f b xs = (from xs, λ (a, m, n). into xs m n)
    where
      from : (xs : List A) → Memᴰ b (flat_map f xs) → (a : A) × Memᴰ a xs × Memᴰ b (f a)
      from [] m = absurd (Memᴰ.not-nil m)
      from (x ∷ xs) m = elim (Memᴰ.append_cases (f x) m) [
        | inl n ↦ (x, Memᴰ.head refl, n)
        | inr n ↦ let (a, there, image) = from xs n in (a, Memᴰ.tail there, image)
      ]

      into : {a : A} (xs : List A) → Memᴰ a xs → Memᴰ b (f a) → Memᴰ b (flat_map f xs)
      into [] m n = absurd (Memᴰ.not-nil m)
      into {a} (x ∷ xs) m n = elim (Memᴰ.cases_cons m) [
        | inl same ↦ Memᴰ.append_left (flat_map f xs) (subst (λ c. Memᴰ b (f c)) same n)
        | inr there ↦ Memᴰ.append_right (f x) (into xs there n)
      ]
