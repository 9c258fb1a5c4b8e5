-- ===== src/Floats.antt =====
-- Floating point numbers, an interface: the operations that the program applies to them. No law is
-- part of it; a theorem that needs some names them.
use claim_triage_agent.Common.{ℕ, Bool, List, if◌then◌else◌}

pub record Floats (F : Type 0) : Type 0 where
  -- float(n)
  pub of : ℕ → F
  -- a / b of two integers
  pub div : ℕ → ℕ → F
  -- a < b and a <= b
  pub lt : F → F → Bool
  pub le : F → F → Bool
  -- a == b
  pub same : F → F → Bool
  -- a + b, a - b, a * b and a / b
  pub add : F → F → F
  pub sub : F → F → F
  pub mul : F → F → F
  pub quotient : F → F → F
  -- sum(xs), which compensates for the rounding of each step
  pub sum : List F → F
  -- round(a, places)
  pub round : F → ℕ → F
  -- ceil(a), of a number that is not negative
  pub ceiling : F → ℕ
  -- the numbers that "{a:.0f}" and "{a:.2f}" show, the second in hundredths
  pub whole : F → ℕ
  pub hundredths : F → ℕ

-- Python's min(a, b) and max(a, b): the first, unless the second is less or greater.
abbrev pub smaller : {F : Type 0} → Floats F → F → F → F
smaller floats a b = if floats.lt b a then b else a

abbrev pub larger : {F : Type 0} → Floats F → F → F → F
larger floats a b = if floats.lt a b then b else a
