-- ===== src/Base/Outcome.antt =====
-- The outcome of code with a loop on fuel: it returns, or the fuel ran out.

pub data Run {ℓ} (A : Type ℓ) : Type ℓ where
  returns : A → Run A
  diverges : Run A

infixl 5 ◌>>=◌
abbrev pub ◌>>=◌ {ℓ κ} : {A : Type ℓ} {B : Type κ} → Run A → (A → Run B) → Run B
returns a >>= f = f a
diverges >>= f = diverges

-- A predicate of what a run returns, if it does.
abbrev pub Returned {ℓ} : {A : Type ℓ} → (A → Type 0) → Run A → Type 0
Returned P (returns a) = P a
Returned P diverges = Unit {0}

pub bind-Returned {ℓ κ} :
    {A : Type ℓ} {B : Type κ} (P : B → Type 0) (t : Run A) (f : A → Run B)
    → ((a : A) → Returned P (f a))
    → Returned P (t >>= f)
bind-Returned P (returns a) f h = h a
bind-Returned P diverges f h = tt

-- What a run returns, or a value for a run that does not.
abbrev pub result_or {ℓ} : {A : Type ℓ} → A → Run A → A
result_or a (returns b) = b
result_or a diverges = a
