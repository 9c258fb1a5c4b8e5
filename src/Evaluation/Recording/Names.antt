-- ===== src/Evaluation/Recording/Names.antt =====
-- src/claim_triage/evaluation/scoring.py and baselines.py: the names that a measurement is made under,
-- and what is recorded under them.
use Prim.Native.String.{len, slice, ◌++◌ as str_append}
use text.Mathlib.TextEquality.{slice-prefix}
use text.Mathlib.TextLemmas.{append_assoc as str_assoc}
use text.Mathlib.TextPositions.{slice-append_left}
use claim_triage_agent.Common.{
  ◌≡◌, refl, sym, ap, ◌∙◌, inl, inr, Bool, true, false, String, none, some, [], ◌∷◌, ◌==◌, ◌||◌,
  All, arith, eq_iff, Bool-cases, Option-cases, if◌then◌else◌, string_equality,
}
use claim_triage_agent.Floats.{Floats}
use claim_triage_agent.Evaluation.Baselines.{starts_with}
use claim_triage_agent.Dict.{Dict, get, put, keys, only}
use claim_triage_agent.Dict.Laws.{get-put}
use claim_triage_agent.Evaluation.Material.{is_in}
use claim_triage_agent.Evaluation.Material.Repeats.{IsDistinct}
use claim_triage_agent.Evaluation.Measurements.{Capability, value_of}
use claim_triage_agent.Evaluation.Recording.{Documents, recorded_places, round_all}

abbrev pub prefix_of : Capability → String
prefix_of c = str_append (value_of c) "."

-- Every name begins with the capability's own, and none stands twice.
abbrev pub IsNamed : {F : Type 0} → Capability → Dict F → Type 0
IsNamed c d = All (λ kv. starts_with (prefix_of c) kv.0 ≡ true) d × IsDistinct (keys d)

-- What follows a prefix.
rest_of :
    (prefix name : String)
    → starts_with prefix name ≡ true
    → (rest : String) × (str_append prefix rest ≡ name)
rest_of prefix name starts =
    let (rest, held) = slice-prefix name (len prefix) in
    let same : slice name 0 (len prefix) ≡ prefix =
      (eq_iff (slice name 0 (len prefix)) prefix).0 starts in
    (rest, ap (λ s. str_append s rest) (sym same) ∙ held)

abbrev initial : String → String
initial s = slice s 0 1

initial_of :
    (c : Capability) (name : String)
    → starts_with (prefix_of c) name ≡ true
    → initial name ≡ initial (prefix_of c)
initial_of Capability.extraction name starts =
    let (rest, held) = rest_of "extraction." name starts in
    sym (ap initial held)
    ∙ ap initial (str_assoc "e" "xtraction." rest)
    ∙ slice-append_left "e" (str_append "xtraction." rest)
initial_of Capability.retrieval name starts =
    let (rest, held) = rest_of "retrieval." name starts in
    sym (ap initial held)
    ∙ ap initial (str_assoc "r" "etrieval." rest)
    ∙ slice-append_left "r" (str_append "etrieval." rest)
initial_of Capability.classification name starts =
    let (rest, held) = rest_of "classification." name starts in
    sym (ap initial held)
    ∙ ap initial (str_assoc "c" "lassification." rest)
    ∙ slice-append_left "c" (str_append "lassification." rest)

-- A name begins with one capability's own only.
pub other_prefix :
    (c d : Capability) (name : String)
    → initial (prefix_of c) == initial (prefix_of d) ≡ false
    → starts_with (prefix_of c) name ≡ true
    → starts_with (prefix_of d) name ≡ false
other_prefix c d name differ starts = elim (Bool-cases (starts_with (prefix_of d) name)) [
  | inr does_not ↦ does_not
  | inl both ↦
      let same : initial (prefix_of c) ≡ initial (prefix_of d) =
        sym (initial_of c name starts) ∙ initial_of d name both in
      absurd (ground (arith, differ, same, eq_iff (initial (prefix_of c)) (initial (prefix_of d))))
]

module _ {V : Type 0} where
  pub get-only :
      (test : String → Bool) (name : String) (d : Dict V)
      → get name (only test d) ≡ (if test name then get name d else none)
  unfolding get only
  get-only test name [] = ground arith
  get-only test name (kv ∷ d) =
      ground (arith, eq_iff kv.0 name, Bool-cases (test kv.0), get-only test name d)

  get_unheld : (name : String) (d : Dict V) → is_in name (keys d) ≡ false → get name d ≡ none
  unfolding get keys is_in
  get_unheld name [] unheld = refl
  get_unheld name (kv ∷ d) unheld =
      ground (arith, unheld, eq_iff kv.0 name, eq_iff name kv.0, get_unheld name d)

  is_in-put :
      (name k : String) (v : V) (d : Dict V)
      → is_in name (keys (put k v d)) ≡ (is_in name (keys d) || name == k)
  unfolding put keys is_in
  is_in-put name k v [] = ground arith
  is_in-put name k v (kv ∷ d) =
      ground (arith, eq_iff kv.0 k, eq_iff name k, eq_iff name kv.0, is_in-put name k v d)

  pub IsNamed-put :
      (c : Capability) (k : String) (v : V) (d : Dict V)
      → starts_with (prefix_of c) k ≡ true
      → IsNamed c d
      → IsNamed c (put k v d)
  unfolding put keys is_in
  IsNamed-put c k v [] starts named = ground (arith, starts)
  IsNamed-put c k v (kv ∷ d) starts named = elim (Bool-cases (kv.0 == k)) [
    | inl here ↦ ground (arith, here, starts, named, eq_iff kv.0 k)
    | inr there ↦ ground (
      arith,
      there,
      named,
      eq_iff kv.0 k,
      is_in-put kv.0 k v d,
      IsNamed-put c k v d starts (named.0.1, named.1.1),
    )
  ]

module _ {F : Type 0} (floats : Floats F) (documents : Documents F) where
  pub get-round_all :
      (name : String) (d metrics : Dict F)
      → IsDistinct (keys d)
      → get name (round_all floats documents d metrics) ≡ elim (get name d) [
        | none ↦ get name metrics
        | some v ↦ some (floats.round v recorded_places)
      ]
  unfolding get round_all keys
  get-round_all name [] metrics distinct = refl
  get-round_all name (kv ∷ d) metrics distinct = ground (
    arith,
    get-round_all name d (put kv.0 (floats.round kv.1 recorded_places) metrics) distinct.1,
    get-put name kv.0 (floats.round kv.1 recorded_places) metrics,
    eq_iff kv.0 name,
    distinct.0,
    get_unheld kv.0 d,
    Option-cases (get name d),
  )

pub starts_append : (prefix rest : String) → starts_with prefix (str_append prefix rest) ≡ true
starts_append prefix rest =
    (eq_iff (slice (str_append prefix rest) 0 (len prefix)) prefix).1
      (slice-append_left prefix rest)
