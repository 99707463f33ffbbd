-- ===== src/Common/Result.antt =====
-- Code that throws, and sequences of guards of which the first that fails is reported.
use sozai.Common.{◌≡◌, refl, Bool, Option, none, some, List, [], ◌∷◌, if◌then◌else◌}

-- What a call returns, or the error that it throws.
pub data Result {ℓ} (E A : Type ℓ) : Type ℓ where
  err : E → Result E A
  ok : A → Result E A

module _ {ℓ} {E A B : Type ℓ} where
  infixl 5 ◌>>=◌
  -- What follows a call that may throw.
  abbrev pub ◌>>=◌ : (call : Result E A) (next : A → Result E B) → Result E B
  err thrown >>= next = err thrown
  ok value >>= next = next value

  -- A call that succeeds with what follows it did succeed, and so did what follows.
  pub >>=-eq-ok :
      (call : Result E A) (next : A → Result E B) {answer : B}
      → (call >>= next) ≡ ok answer
      → (value : A) × (call ≡ ok value) × (next value ≡ ok answer)
  >>=-eq-ok (err thrown) next h = cc
  >>=-eq-ok (ok value) next h = (value, refl, h)

-- A value that is required to be there.
abbrev pub required {ℓ} : {E A : Type ℓ} → E → Option A → Result E A
required e none = err e
required e (some a) = ok a

-- `if (test) throw issue; …`: the issue of the first test that is true.
abbrev pub first_issue {ℓ} : {E : Type ℓ} → List (Bool × E) → Option E
first_issue [] = none
first_issue ((b, e) ∷ rest) = if b then some e else first_issue rest

-- The first of two checks that reports.
infixl 20 ◌<|>◌
abbrev pub ◌<|>◌ {ℓ} : {E : Type ℓ} → Option E → Option E → Option E
some e <|> o = some e
none <|> o = o

pub ok-injective {ℓ} : {E A : Type ℓ} {a b : A} → ◌≡◌ {A = Result E A} (ok a) (ok b) → a ≡ b
ok-injective h = cc
