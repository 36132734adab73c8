-- ===== src/Common/Results.antt =====
-- Rust's `Result`, with its bind for the `?` operator.
use mathlib.Core.Path.{◌≡◌, refl}
use mathlib.Core.Logic.{◌⊎◌, inl, inr}
use mathlib.Core.Option.{Option, none, some}

pub data Result {ℓ} (E A : Type ℓ) : Type ℓ where
  ok : A → Result E A
  err : E → Result E A

infixl 5 ◌>>=◌
abbrev pub ◌>>=◌ {ℓ} : {E A B : Type ℓ} → Result E A → (A → Result E B) → Result E B
ok a >>= f = f a
err e >>= f = err e

-- `ok_or`, and a fallible conversion under `context`.
abbrev pub ok_or {ℓ} : {E A : Type ℓ} → Option A → E → Result E A
ok_or (some a) e = ok a
ok_or none e = err e

pub Result-cases {ℓ} :
    {E A : Type ℓ} (r : Result E A) → ((a : A) × (r ≡ ok a)) ⊎ ((e : E) × (r ≡ err e))
Result-cases (ok a) = inl (a, refl)
Result-cases (err e) = inr (e, refl)

-- What a chain that succeeds went through.
pub bind-inv {ℓ} :
    {E A B : Type ℓ} (x : Result E A) (f : A → Result E B) (b : B)
    → (x >>= f) ≡ ok b
    → (a : A) × (x ≡ ok a) × (f a ≡ ok b)
bind-inv (ok a) f b h = (a, refl, h)
bind-inv (err e) f b h = cc h

-- The same for a proof that goes on with it.
pub bind-elim {ℓ} :
    {E A B P : Type ℓ} (x : Result E A) (f : A → Result E B) (b : B)
    → (x >>= f) ≡ ok b
    → ((a : A) → x ≡ ok a → f a ≡ ok b → P)
    → P
bind-elim (ok a) f b h k = k a refl h
bind-elim (err e) f b h k = cc h

pub ok_or-inv {ℓ} : {E A : Type ℓ} (o : Option A) (e : E) (a : A) → ok_or o e ≡ ok a → o ≡ some a
ok_or-inv (some x) e a h = cc h
ok_or-inv none e a h = cc h
