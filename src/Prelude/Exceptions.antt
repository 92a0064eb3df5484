-- ===== src/Prelude/Exceptions.antt =====
-- Code that may throw: what it returns, or the text of the exception.
use supervisorcpp.Prelude.Text.{Bytes}

pub data Tried {ℓ} (A : Type ℓ) : Type ℓ where
  returns : A → Tried A
  throws : Bytes → Tried A

infixl 5 ◌>>=◌ ◌>>◌
abbrev pub ◌>>=◌ {ℓ κ} : {A : Type ℓ} {B : Type κ} → Tried A → (A → Tried B) → Tried B
returns a >>= f = f a
throws what >>= f = throws what

abbrev pub ◌>>◌ {ℓ κ} : {A : Type ℓ} {B : Type κ} → Tried A → Tried B → Tried B
m >> k = m >>= λ _. k

-- A `catch` that throws another exception, whose text is made from the first.
abbrev pub rethrow {ℓ} : {A : Type ℓ} → (Bytes → Bytes) → Tried A → Tried A
rethrow f (returns a) = returns a
rethrow f (throws what) = throws (f what)
