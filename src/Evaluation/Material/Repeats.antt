-- ===== src/Evaluation/Material/Repeats.antt =====
-- src/claim_triage/evaluation/material.py: what `refuse_repeats` lets through.
use claim_triage_agent.Common.{
  ◌≡◌, ◌↔◌, inl, inr, false, String, List, [], ◌∷◌, All, arith, eq_iff, Bool-cases, string_equality,
}
use claim_triage_agent.Evaluation.Material.{FilePath, found, is_in, refuse_repeats}

-- No identifier stands twice.
abbrev pub IsDistinct : List String → Type 0
IsDistinct [] = Unit
IsDistinct (id ∷ ids) = (is_in id ids ≡ false) × IsDistinct ids

abbrev pub AreUnseen : List String → List String → Type 0
AreUnseen seen ids = All (λ id. is_in id seen ≡ false) ids

AreUnseen-iff :
    (id : String) (seen ids : List String)
    → AreUnseen (id ∷ seen) ids ↔ ((is_in id ids ≡ false) × AreUnseen seen ids)
unfolding is_in
AreUnseen-iff id seen [] = ground arith
AreUnseen-iff id seen (i ∷ ids) =
    ground (arith, eq_iff i id, eq_iff id i, AreUnseen-iff id seen ids)

pub refuse_repeats_iff :
    (path : FilePath) (seen ids : List String)
    → (refuse_repeats path seen ids ≡ found tt) ↔ (IsDistinct ids × AreUnseen seen ids)
unfolding refuse_repeats
refuse_repeats_iff path seen [] = ground arith
refuse_repeats_iff path seen (id ∷ ids) = elim (Bool-cases (is_in id seen)) [
  | inl repeated ↦ ground (arith, repeated)
  | inr fresh ↦
      ground (arith, fresh, refuse_repeats_iff path (id ∷ seen) ids, AreUnseen-iff id seen ids)
]
