-- ===== src/Pipeline/Topic.antt =====
-- The submission topic read in order.
use dhp.Prelude.{
  ℕ, if◌then◌else◌, subst, Bool, zero, suc, ◌+◌, ◌≤◌, ◌<◌, String, some, List, [], ◌∷◌, ◌++◌, ◌≡◌,
  refl, sym, ap, append_assoc, append-nil, str_eq, ◌&&◌, arith, count, count-append, length, take,
  All, All-append, Bool-cases, inl, inr,
}
use native.Mathlib.Nat.{suc-add}
use dhp.Kafka.{Message}
use dhp.Job.{Job}
use dhp.Job.Service.{World, job_topic}
use dhp.Job.Retry.{submissions}
use dhp.Pipeline.{submitted, get_elem?}
use dhp.Pipeline.Published.{IsPublished, Published}

pub submitted-append : (ms ns : List Message) → submitted (ms ++ ns) ≡ submitted ns ++ submitted ms
submitted-append [] ns = sym (append-nil (submitted ns))
submitted-append (m ∷ ms) ns = elim (Bool-cases (str_eq m.topic job_topic)) [
  | inl t ↦ rw (t, submitted-append ms ns) (append_assoc (submitted ns) (submitted ms) (m ∷ []))
  | inr t ↦ rw (t, submitted-append ms ns)
]

pub submitted-All :
    (js : List Job) (ms : List Message)
    → All (Published js) ms
    → All (IsPublished js) (submitted ms)
submitted-All js [] a = tt
submitted-All js (m ∷ ms) a = elim (Bool-cases (str_eq m.topic job_topic)) [
  | inl t ↦
      rw t
        (All-append (IsPublished js) (submitted ms) (m ∷ []) (submitted-All js ms a.1) (a.0 t, tt))
  | inr t ↦ rw t (submitted-All js ms a.1)
]

count-submitted :
    (k : String) (ms : List Message)
    → count (λ m. str_eq m.key k) (submitted ms)
      ≡ count (λ m. str_eq m.topic job_topic && str_eq m.key k) ms
count-submitted k [] = refl
count-submitted k (m ∷ ms) = elim (Bool-cases (str_eq m.topic job_topic)) [
  | inl t ↦ rw t (
      omega
        (arith, count-append (λ m. str_eq m.key k) (submitted ms) (m ∷ []), count-submitted k ms))
  | inr t ↦ rw t (omega (arith, count-submitted k ms))
]

module _ {ℓ} {A : Type ℓ} where
  pub All-get_elem? {κ} :
      (P : A → Type κ) (xs : List A) (i : ℕ) {x : A} → All P xs → get_elem? xs i ≡ some x → P x
  All-get_elem? P [] i a e = cc
  All-get_elem? P (y ∷ xs) zero {x} a e = let same : y ≡ x = cc in subst P same a.0
  All-get_elem? P (y ∷ xs) (suc i) a e = All-get_elem? P xs i a.1 e

  take-get_elem? :
      (xs : List A) (i : ℕ) {x : A}
      → get_elem? xs i ≡ some x
      → take (i + 1) xs ≡ take i xs ++ x ∷ []
  take-get_elem? [] i e = cc
  take-get_elem? (y ∷ xs) zero {x} e = let same : y ≡ x = cc in ap (λ z. z ∷ []) same
  take-get_elem? (y ∷ xs) (suc i) e = rw suc-add (ap (◌∷◌ y) (take-get_elem? xs i e))

  pub get_elem?_lt : (xs : List A) (i : ℕ) {x : A} → get_elem? xs i ≡ some x → i < length xs
  get_elem?_lt [] i e = cc
  get_elem?_lt (y ∷ xs) zero e = omega arith
  get_elem?_lt (y ∷ xs) (suc i) e = omega (arith, get_elem?_lt xs i e)

  pub take-append : (n : ℕ) (xs ys : List A) → n ≤ length xs → take n (xs ++ ys) ≡ take n xs
  take-append zero xs ys h = refl
  take-append (suc n) [] ys h = absurd (omega arith)
  take-append (suc n) (x ∷ xs) ys h = ap (◌∷◌ x) (take-append n xs ys (omega arith))

  pub count-take : (q : A → Bool) (n : ℕ) (xs : List A) → count q (take n xs) ≤ count q xs
  count-take q zero xs = omega arith
  count-take q (suc n) [] = omega arith
  count-take q (suc n) (x ∷ xs) = omega (arith, count-take q n xs)

-- How many events of a job the consumer has read.
abbrev pub taken : String → ℕ → List Message → ℕ
taken k offset ms = count (λ m. str_eq m.key k) (take offset (submitted ms))

pub taken_next :
    (k : String) (n : ℕ) (ms : List Message) {m : Message}
    → get_elem? (submitted ms) n ≡ some m
    → taken k (n + 1) ms ≡ taken k n ms + (if str_eq m.key k then 1 else 0)
taken_next k n ms {m} next =
    let key : Message → Bool = λ x. str_eq x.key k in
    omega (
      arith,
      ap (count key) (take-get_elem? (submitted ms) n next),
      count-append key (take n (submitted ms)) (m ∷ []),
    )

pub taken-submissions :
    (k : String) (n : ℕ) (w : World) → taken k n w.kafka.stored ≤ submissions k w
taken-submissions k n w = omega (
  arith,
  count-take (λ m. str_eq m.key k) n (submitted w.kafka.stored),
  count-submitted k w.kafka.stored,
)
