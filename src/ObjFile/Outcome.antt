-- ===== src/ObjFile/Outcome.antt =====
-- What a call of the reader comes to: a result, a File::Error with its text, or no end at all.
use sourcemud.Base.Text.{Text}

pub data Outcome {ℓ} (A : Type ℓ) : Type ℓ where
  ok : A → Outcome A
  thrown : Text → Outcome A
  endless : Outcome A

infixl 5 ◌>>=◌
abbrev pub ◌>>=◌ {ℓ κ} : {A : Type ℓ} {B : Type κ} → Outcome A → (A → Outcome B) → Outcome B
ok a >>= f = f a
thrown what >>= f = thrown what
endless >>= f = endless
