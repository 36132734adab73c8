-- ===== src/Pipeline/Floats.antt =====
-- `f64` as src/pipeline/stages/transform.rs uses it.
use ingestion_service.Common.{ℕ, Bool, ◌&&◌, if◌then◌else◌}

pub record Floats (F64 : Type 0) : Type 0 where
  -- the literal of these digits, so many of them behind the point
  pub decimal : ℕ → ℕ → F64
  pub neg : F64 → F64
  pub ln : F64 → F64
  pub sqrt : F64 → F64
  pub abs : F64 → F64
  pub add : F64 → F64 → F64
  pub sub : F64 → F64 → F64
  pub mul : F64 → F64 → F64
  pub div : F64 → F64 → F64
  -- `<` and `<=`, which are false where one side is no number
  pub lt : F64 → F64 → Bool
  pub le : F64 → F64 → Bool

module _ {F64 : Type 0} ⦃f : Floats F64⦄ where
  infixl 60 ◌+f◌ ◌-f◌
  infixl 70 ◌*f◌ ◌/f◌
  infix 50 ◌<f◌ ◌<=f◌
  abbrev pub ◌+f◌ : F64 → F64 → F64
  x +f y = f.add x y

  abbrev pub ◌-f◌ : F64 → F64 → F64
  x -f y = f.sub x y

  abbrev pub ◌*f◌ : F64 → F64 → F64
  x *f y = f.mul x y

  abbrev pub ◌/f◌ : F64 → F64 → F64
  x /f y = f.div x y

  abbrev pub ◌<f◌ : F64 → F64 → Bool
  x <f y = f.lt x y

  abbrev pub ◌<=f◌ : F64 → F64 → Bool
  x <=f y = f.le x y

  -- the digits of a literal
  abbrev pub decimal : ℕ → ℕ → F64
  decimal digits places = f.decimal digits places

  -- `(low..=high).contains(&x)`
  abbrev pub contains : F64 → F64 → F64 → Bool
  contains low high x = low <=f x && x <=f high

  -- `f64::clamp`
  abbrev pub clamp : F64 → F64 → F64 → F64
  clamp low high x = if x <f low then low else if high <f x then high else x
