-- ===== src/Http.antt =====
-- What a FastAPI endpoint answers: a body, or the status code of an HTTP error.
use dhp.Prelude.{ℕ}

pub data Reply {ℓ} (A : Type ℓ) : Type ℓ where
  ok : A → Reply A
  error : ℕ → Reply A
