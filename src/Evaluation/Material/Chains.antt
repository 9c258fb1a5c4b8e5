-- ===== src/Evaluation/Material/Chains.antt =====
-- src/claim_triage/evaluation/material.py: a chain of readers that comes to a value.
use claim_triage_agent.Common.{◌≡◌, refl, arith}
use claim_triage_agent.Evaluation.Material.{Read, found, unreadable, ◌>>=◌}

pub found-bind :
    {A B : Type 0} (m : Read A) (f : A → Read B) (b : B)
    → (m >>= f) ≡ found b
    → (a : A) × (m ≡ found a) × (f a ≡ found b)
found-bind (found a) f b held = (a, refl, held)
found-bind (unreadable why) f b held = absurd (ground (arith, held))
