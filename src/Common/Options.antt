-- ===== src/Common/Options.antt =====
-- The chain of optional values that the evaluations on fuel use.
use mathlib.Core.Option.{Option, none, some}

infixl 5 ◌>>=◌
abbrev pub ◌>>=◌ {ℓ₁ ℓ₂} : {A : Type ℓ₁} {B : Type ℓ₂} → Option A → (A → Option B) → Option B
some a >>= rest = rest a
none >>= rest = none
