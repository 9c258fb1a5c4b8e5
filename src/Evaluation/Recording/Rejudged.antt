-- ===== src/Evaluation/Recording/Rejudged.antt =====
-- src/claim_triage/evaluation/baselines.py and gate.py: a run against the baseline that it recorded.
use claim_triage_agent.Common.{
  ◌≡◌, refl, sym, ap, ◌∙◌, inl, inr, true, false, String, Option, none, some, List, [], ◌∷◌, ◌⊎◌,
  ◌==◌, All, arith, eq_iff, Bool-cases, Option-cases, if◌then◌else◌, string_equality,
}
use claim_triage_agent.Floats.{Floats}
use claim_triage_agent.Evaluation.Baselines.{Baseline, Settings, SetRecord, starts_with, metrics_of}
use claim_triage_agent.Evaluation.Cases.{Sets, Answers}
use claim_triage_agent.Evaluation.Classification.{measure_classification}
use claim_triage_agent.Dict.{Dict, get}
use claim_triage_agent.Evaluation.Extraction.{measure_extraction}
use claim_triage_agent.Evaluation.Gate.{Rules, passed, judge, has_regressed}
use claim_triage_agent.Evaluation.Gate.Passing.{Holds, Meets, passed_iff}
use claim_triage_agent.Evaluation.Measurements.{Capability, Measurement, Reading}
use claim_triage_agent.Evaluation.Metrics.{Texts}
use claim_triage_agent.Evaluation.Recording.{
  Documents, recorded, recorded_places, recorded_metrics, round_all, set_record, are_measurable,
}
use claim_triage_agent.Evaluation.Recording.Measured.{
  IsMeasured, measure_extraction-IsMeasured, measure_retrieval-IsMeasured,
  measure_classification-IsMeasured,
}
use claim_triage_agent.Evaluation.Recording.Names.{prefix_of, other_prefix, get-only, get-round_all}
use claim_triage_agent.Evaluation.Retrieval.{measure_retrieval}
use claim_triage_agent.Evaluation.Scoring.{measure}

get_other :
    {F : Type 0} (c : Capability) (name : String) (d : Dict F)
    → All (λ kv. starts_with (prefix_of c) kv.0 ≡ true) d
    → starts_with (prefix_of c) name ≡ false
    → get name d ≡ none
unfolding get
get_other c name [] starts other = refl
get_other c name (kv ∷ d) starts other = elim (Bool-cases (kv.0 == name)) [
  | inl here ↦
      let same : kv.0 ≡ name = (eq_iff kv.0 name).0 here in
      absurd (ground (arith, starts.0, other, ap (starts_with (prefix_of c)) same))
  | inr there ↦ ground (arith, there, get_other c name d starts.1 other)
]

Reading-cases :
    (reading : Reading)
    → (reading ≡ Reading.scored) ⊎ (reading ≡ Reading.no_cases) ⊎ (reading ≡ Reading.not_answered)
Reading-cases Reading.scored = inl refl
Reading-cases Reading.no_cases = inr (inl refl)
Reading-cases Reading.not_answered = inr (inr refl)

version_again :
    {F : Type 0} (c : Capability) (size : SetRecord) (m : Measurement F) (b : Baseline F)
    → IsMeasured c size m
    → b.sets c ≡ size
    → m.version ≡ (b.sets m.capability).version
version_again c size m b (is_c, of_version, _, _, _) kept =
    of_version ∙ ap (λ s. s.version) (sym kept) ∙ sym (ap (λ d. (b.sets d).version) is_c)

module _ {F : Type 0} (floats : Floats F) (documents : Documents F) where
  abbrev rounded : Option F → Option F
  rounded none = none
  rounded (some v) = some (floats.round v recorded_places)

  recorded_one :
      (c : Capability) (size : SetRecord) (m : Measurement F) (ms : List (Measurement F))
      (metrics : Dict F)
      → IsMeasured c size m
      → recorded_metrics floats documents (m ∷ ms) metrics
        ≡ recorded_metrics floats documents ms (round_all floats documents m.metrics metrics)
  unfolding recorded_metrics round_all
  recorded_one c size m ms metrics (_, _, _, _, inl is_scored) = rw is_scored refl
  recorded_one c size m ms metrics (_, _, _, _, inr nothing) =
      ground (arith, nothing, Reading-cases m.reading)

  module _ (e_size r_size k_size : SetRecord) (e r k : Measurement F)
      (is_e : IsMeasured Capability.extraction e_size e)
      (is_r : IsMeasured Capability.retrieval r_size r)
      (is_k : IsMeasured Capability.classification k_size k) where
    abbrev own : Capability → Measurement F
    own Capability.extraction = e
    own Capability.retrieval = r
    own Capability.classification = k

    abbrev all_rounded : Dict F
    all_rounded =
        round_all floats documents k.metrics
          (round_all floats documents r.metrics (round_all floats documents e.metrics []))

    all_recorded : recorded_metrics floats documents (e ∷ r ∷ k ∷ []) [] ≡ all_rounded
    unfolding recorded_metrics
    all_recorded =
        recorded_one Capability.extraction e_size e (r ∷ k ∷ []) [] is_e
        ∙ recorded_one Capability.retrieval r_size r (k ∷ []) _ is_r
        ∙ recorded_one Capability.classification k_size k [] _ is_k

    unnamed :
        (c : Capability) (name : String)
        → starts_with (prefix_of c) name ≡ false
        → get name (own c).metrics ≡ none
    unnamed Capability.extraction name other =
        get_other Capability.extraction name e.metrics is_e.3.0 other
    unnamed Capability.retrieval name other =
        get_other Capability.retrieval name r.metrics is_r.3.0 other
    unnamed Capability.classification name other =
        get_other Capability.classification name k.metrics is_k.3.0 other

    abbrev first_of : Option F → Option F → Option F
    first_of none later = later
    first_of (some v) later = rounded (some v)

    get_all :
        (name : String)
        → get name all_rounded
          ≡ first_of
              (get name k.metrics)
              (first_of (get name r.metrics) (rounded (get name e.metrics)))
    unfolding get
    get_all name =
        let of_e_r =
          round_all floats documents r.metrics (round_all floats documents e.metrics []) in
        ground (
          arith,
          get-round_all floats documents name e.metrics [] is_e.3.1,
          get-round_all floats documents name r.metrics (round_all floats documents e.metrics [])
              is_r.3.1,
          get-round_all floats documents name k.metrics of_e_r is_k.3.1,
          Option-cases (get name e.metrics),
          Option-cases (get name r.metrics),
          Option-cases (get name k.metrics),
        )

    -- What is recorded for a capability is what was measured of it, rounded.
    get-rounded :
        (c : Capability) (name : String)
        → starts_with (prefix_of c) name ≡ true
        → get name all_rounded ≡ rounded (get name (own c).metrics)
    get-rounded Capability.extraction name starts = ground (
      arith,
      get_all name,
      unnamed Capability.retrieval name
          (other_prefix Capability.extraction Capability.retrieval name refl starts),
      unnamed Capability.classification name
          (other_prefix Capability.extraction Capability.classification name refl starts),
    )
    get-rounded Capability.retrieval name starts = ground (
      arith,
      get_all name,
      unnamed Capability.extraction name
          (other_prefix Capability.retrieval Capability.extraction name refl starts),
      unnamed Capability.classification name
          (other_prefix Capability.retrieval Capability.classification name refl starts),
      Option-cases (get name r.metrics),
    )
    get-rounded Capability.classification name starts = ground (
      arith,
      get_all name,
      unnamed Capability.extraction name
          (other_prefix Capability.classification Capability.extraction name refl starts),
      unnamed Capability.retrieval name
          (other_prefix Capability.classification Capability.retrieval name refl starts),
      Option-cases (get name k.metrics),
    )

    metrics_rounded :
        (c : Capability) (name : String) (b : Baseline F)
        → b.metrics ≡ all_rounded
        → get name (metrics_of b c)
          ≡ (if starts_with (prefix_of c) name then rounded (get name (own c).metrics) else none)
    unfolding metrics_of
    metrics_rounded c name b made =
        let kept = get-only (starts_with (prefix_of c)) name b.metrics in
        elim (Bool-cases (starts_with (prefix_of c) name)) [
          | inr not_own ↦ ground (arith, kept, not_own)
          | inl is_own ↦ ground (arith, kept, is_own, ap (get name) made, get-rounded c name is_own)
        ]

    -- A value that has not dropped from its own rounding meets the rules that it met.
    Meets-rounded :
        (c : Capability) (name : String) (b : Baseline F) (before : Dict F) (rules : Rules F)
        → b.metrics ≡ all_rounded
        → Meets floats rules before (own c) name
        → ((v : F)
            → has_regressed floats v (floats.round v recorded_places) rules.tolerance ≡ false)
        → Meets floats rules (metrics_of b c) (own c) name
    Meets-rounded c name b before rules made met steady =
        let kept = metrics_rounded c name b made in
        let is_own = Bool-cases (starts_with (prefix_of c) name) in
        (
          λ held. ground (arith, held, kept, is_own, Option-cases (get name (own c).metrics)),
          λ value held. (
            (met.1 value held).0,
            λ base at_base. ground (arith, held, at_base, kept, is_own, steady value),
          ),
        )

    Holds-rounded :
        (c : Capability) (b old : Baseline F) (rules : Rules F)
        → b.metrics ≡ all_rounded
        → (own c).capability ≡ c
        → (b.sets c).cases ≡ (own c).cases
        → Holds floats old rules (own c)
        → ((v : F)
            → has_regressed floats v (floats.round v recorded_places) rules.tolerance ≡ false)
        → Holds floats b rules (own c)
    Holds-rounded c b old rules made is_c same_size (_, met) steady = rw is_c (
      ground (arith, same_size),
      λ name.
          Meets-rounded c name b (metrics_of old (own c).capability) rules made (met name) steady,
    )

  recorded-fields :
      (tag : String) (sets : Sets) (ms : List (Measurement F)) (settings : Settings)
      (b : Baseline F)
      → recorded floats documents tag sets ms settings ≡ some b
      → b ≡ record {
        tag = tag;
        settings = settings;
        sets = set_record sets;
        metrics = recorded_metrics floats documents ms [];
      }
  unfolding recorded
  recorded-fields tag sets ms settings b made =
      elim (Bool-cases
        (are_measurable floats documents (recorded_metrics floats documents ms []))) [
          | inl measurable ↦ ground (arith, made, measurable)
          | inr refused ↦ absurd (ground (arith, made, refused))
        ]

module _ {F D : Type 0} (floats : Floats F) (documents : Documents F) (texts : Texts D) where
  -- A run that passed the gate passes it again against the baseline that was recorded of it, under
  -- the same rules and settings, as long as no value regresses from its own rounding to six decimals
  -- by the rules' tolerance.
  pub rejudged :
      (sets : Sets) (answers : Answers F) (settings : Settings) (old b : Baseline F)
      (rules : Rules F) (tag : String)
      → passed (judge floats (measure floats texts sets answers settings.top_k) old rules settings)
        ≡ true
      → recorded floats documents tag sets
          (measure floats texts sets answers settings.top_k)
          settings
        ≡ some b
      → ((v : F) → has_regressed floats v (floats.round v recorded_places) rules.tolerance ≡ false)
      → passed (judge floats (measure floats texts sets answers settings.top_k) b rules settings)
        ≡ true
  unfolding measure set_record
  rejudged sets answers settings old b rules tag was_passed was_recorded steady =
      let e = measure_extraction floats texts sets.extraction answers.extraction in
      let r = measure_retrieval floats settings.top_k sets.retrieval answers.retrieval in
      let k = measure_classification floats sets.classification answers.classification in
      let is_e = measure_extraction-IsMeasured floats texts sets.extraction answers.extraction in
      let is_r =
        measure_retrieval-IsMeasured floats settings.top_k sets.retrieval answers.retrieval in
      let is_k =
        measure_classification-IsMeasured floats sets.classification answers.classification in
      let (e_held, (r_held, (k_held, _))) =
        ((passed_iff floats (e ∷ r ∷ k ∷ []) old rules settings).0 was_passed).1 in
      let same =
        recorded-fields floats documents tag sets (e ∷ r ∷ k ∷ []) settings b was_recorded in
      let made =
        ap (λ x. x.metrics) same ∙ all_recorded floats documents _ _ _ e r k is_e is_r is_k in
      let again : (c : Capability) → _ =
        Holds-rounded floats documents _ _ _ e r k is_e is_r is_k in
      let kept : (c : Capability) → b.sets c ≡ set_record sets c = λ c. ap (λ x. x.sets c) same in
      let sized : (c : Capability) → (b.sets c).cases ≡ (set_record sets c).cases =
        λ c. ap (λ s. s.cases) (kept c) in
      (passed_iff floats (e ∷ r ∷ k ∷ []) b rules settings).1 (
        inr (
          ap (λ x. x.settings.top_k) same,
          (
            version_again Capability.extraction _ e b is_e (kept Capability.extraction),
            (
              version_again Capability.retrieval _ r b is_r (kept Capability.retrieval),
              (
                version_again Capability.classification _ k b is_k (kept Capability.classification),
                tt,
              ),
            ),
          ),
        ),
        (
          again Capability.extraction b old rules made is_e.0
              (sized Capability.extraction ∙ sym is_e.2) e_held steady,
          (
            again Capability.retrieval b old rules made is_r.0
                (sized Capability.retrieval ∙ sym is_r.2) r_held steady,
            (
              again Capability.classification b old rules made is_k.0
                  (sized Capability.classification ∙ sym is_k.2) k_held steady,
              tt,
            ),
          ),
        ),
      )
