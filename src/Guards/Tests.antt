-- ===== src/Guards/Tests.antt =====
-- The guards at concrete inputs.
use claim_triage_agent.Common.{
  total, ℕ, refl, ◌≢◌, true, String, List, map, eq_iff, ◌+◌, ◌*◌, ◌/◌, ◌-◌, ◌<◌, ◌≤◌, ◌≡◌, ◌↔◌, inl,
  false, none, [], ◌∷◌, All, length, ltb, leb, nat_eq, arith,
}
use claim_triage_agent.Guards.RateLimit.{
  RateLimit, Limiters, Readings, new_bucket, take, find_bucket, take_for,
}
use claim_triage_agent.Guards.RateLimit.Burst.{CountsTo, answers, spent, burst_exact}
use claim_triage_agent.Guards.RateLimit.Callers.{bucket_of}
use claim_triage_agent.Guards.RateLimit.Private.{
  answers_to, alone, always_room, private_buckets, take_for_isolated,
}
use claim_triage_agent.Guards.RateLimit.Table.{after_eviction}
use claim_triage_agent.Floats.{Floats}
use claim_triage_agent.Guards.Ingress.{
  Upload, IngressLimits, Decoders, decoded, unreadable, screen, screened, first_refusal,
  read_bounded,
}
use claim_triage_agent.Guards.Ingress.Admission.{IsAdmissible, admitted_iff}
use claim_triage_agent.Guards.Ingress.Bounded.{read_bounded_exact, undecoded}
use claim_triage_agent.Guards.Ingress.Order.{EndsAtRefusal, screened-EndsAtRefusal}

-- Thousandths stand for floating point numbers.
abbrev thousandths : Floats ℕ
thousandths = record {
  of = λ n. n * 1000;
  add = λ a b. a + b;
  mul = λ a b. a * b / 1000;
  quotient = λ a b. a * 1000 / b;
  sum = total;
  ceiling = λ a. (a + 999) / 1000;
  whole = λ a. a / 1000;
  hundredths = λ a. a / 10;
  div = λ a b. a * 1000 / b;
  lt = ltb;
  le = leb;
  same = nat_eq;
  sub = λ a b. a - b;
  round = λ a places. a;
}

abbrev limits : IngressLimits ℕ
limits = record {
  media_types = "application/pdf" ∷ [];
  max_submission_bytes = 100;
  max_bytes = 4;
  max_pages = 2;
  max_expansion_ratio = 100000;
}

-- A decoder that reads two pages in everything, and one that reads nothing.
abbrev lenient : Decoders
lenient = record {
  open_pdf = λ bytes. decoded (record { is_encrypted = false; pages = decoded 2 });
  open_zip = λ bytes. decoded [];
}

abbrev strict : Decoders
strict = record { open_pdf = λ bytes. unreadable ""; open_zip = λ bytes. unreadable "" }

abbrev short : Upload
short = record { filename = "a.pdf"; media_type = "application/pdf"; content = 37 ∷ 80 ∷ 68 ∷ [] }

abbrev long : Upload
long = record {
  filename = "b.pdf";
  media_type = "application/pdf";
  content = 37 ∷ 80 ∷ 68 ∷ 70 ∷ 45 ∷ [];
}

admitted_iff_example :
    (first_refusal (screen thousandths lenient (short ∷ []) limits) ≡ none)
    ↔ All (IsAdmissible thousandths lenient limits) (short ∷ [])
admitted_iff_example = admitted_iff thousandths lenient (short ∷ []) limits

screened-EndsAtRefusal_example : EndsAtRefusal (screened thousandths strict short limits).verdicts
screened-EndsAtRefusal_example = screened-EndsAtRefusal thousandths strict short limits

undecoded_example :
    screened thousandths lenient long limits ≡ screened thousandths strict long limits
undecoded_example = undecoded thousandths lenient strict long limits (inl (omega arith))

read_bounded_exact_example :
    (length (read_bounded long.content 3) ≤ 3 + 1)
    × ((3 < length (read_bounded long.content 3)) ↔ (3 < length long.content))
    × (length long.content ≤ 3 → read_bounded long.content 3 ≡ long.content)
read_bounded_exact_example = read_bounded_exact long.content 3

-- Whole numbers, at one token for each second.
abbrev wholes : Floats ℕ
wholes = record {
  of = λ n. n;
  div = λ a b. a / b;
  lt = ltb;
  le = leb;
  same = nat_eq;
  add = λ a b. a + b;
  sub = λ a b. a - b;
  mul = λ a b. a * b;
  quotient = λ a b. a / b;
  sum = total;
  round = λ a places. a;
  ceiling = λ a. a;
  whole = λ a. a;
  hundredths = λ a. a * 100;
}

abbrev two_a_second : RateLimit ℕ
two_a_second = record { burst = 2; refill_per_second = 1 }

wholes_count : CountsTo wholes 9 1 7
wholes_count = (λ m n _ _. refl, λ m n _ _. refl, λ n _. omega arith, refl, λ n _. ground arith)

burst_exact_example : answers wholes two_a_second 4 7 (new_bucket wholes two_a_second 7) ≡ spent 4 2
burst_exact_example = burst_exact wholes two_a_second 9 7 wholes_count (omega arith) (omega arith) 4

spent_then_refilled :
    map
      (λ a. a.verdict.passed)
      (answers_to wholes two_a_second "a"
        (("a", record { made_at = 0; now = 0 })
          ∷ ("a", record { made_at = 0; now = 0 })
          ∷ ("b", record { made_at = 0; now = 0 })
          ∷ ("a", record { made_at = 0; now = 0 })
          ∷ ("a", record { made_at = 0; now = 1 })
          ∷ [])
        (record { keys = 2; buckets = [] }))
    ≡ true ∷ true ∷ false ∷ true ∷ []
unfolding answers_to take_for
spent_then_refilled = refl

abbrev calls : List (String × Readings ℕ)
calls =
    ("a", record { made_at = 0; now = 0 })
    ∷ ("b", record { made_at = 0; now = 0 })
    ∷ ("a", record { made_at = 0; now = 0 })
    ∷ ("a", record { made_at = 1; now = 1 })
    ∷ []

abbrev nobody : Limiters ℕ
nobody = record { keys = 2; buckets = [] }

room_for_calls : always_room wholes two_a_second calls nobody ≡ true
unfolding always_room find_bucket take_for
room_for_calls = refl

private_buckets_example :
    answers_to wholes two_a_second "a" calls nobody
    ≡ alone wholes two_a_second "a" calls (find_bucket "a" nobody.buckets)
private_buckets_example =
    private_buckets wholes two_a_second "a" calls nobody (omega arith) (omega arith) room_for_calls

abbrev first_caller : String
first_caller = "a"

a_b : first_caller ≢ "b"
a_b same = absurd (ground (arith, same, eq_iff "a" "b"))

take_for_isolated_example :
    (length (take_for wholes two_a_second "b" (record { made_at = 3; now = 3 }) nobody).1.buckets
      ≤ 2)
    × (find_bucket "a"
          (take_for wholes two_a_second "b" (record { made_at = 3; now = 3 }) nobody).1.buckets
        ≡ find_bucket "a" (after_eviction "b" nobody))
    × ((take_for wholes two_a_second "b" (record { made_at = 3; now = 3 }) nobody).0
        ≡ (take wholes two_a_second 3
            (bucket_of wholes two_a_second 3 (find_bucket "b" nobody.buckets))).0)
take_for_isolated_example =
    take_for_isolated wholes two_a_second "a" "b" (record { made_at = 3; now = 3 }) nobody a_b
      (omega arith) (omega arith)
