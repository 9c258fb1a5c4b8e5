-- ===== src/Model/Provider.antt =====
-- src/claim_triage/model/provider.py: the adapter that asks an endpoint. `Endpoint` is the transport,
-- which answers with a status and a body or cannot be reached, and the texts of the answer's choices.
use Prim.Native.String.{count, ◌++◌ as str_append}
use claim_triage_agent.Common.{
  ℕ, zero, suc, String, Option, none, some, List, [], ◌∷◌, leb, nat_eq, if◌then◌else◌,
}
use claim_triage_agent.Model.{ModelCall, Shapes, Answered, answer, unavailable, refused, unusable}

-- `_payload`: the model, the two messages and the shape.
pub record Payload : Type 0 where
  pub model : String
  pub system : String
  pub user : String
  pub schema : String

unfoldable pub payload : String → ModelCall → Payload
payload name call = record {
  model = name;
  system = call.task;
  user = call.content;
  schema = call.answer_as;
}

pub record Endpoint (J : Type 0) : Type 0 where
  pub post : Payload → Option (ℕ × String)
  pub choices : J → Option (List (Option String))
  pub strip : String → String

-- `s[:limit]`
unfoldable pub first_characters : ℕ → String → String
first_characters zero s = ""
first_characters (suc n) String.[] = ""
first_characters (suc n) (String.◌∷◌ c s) = String.◌∷◌ c (first_characters n s)

-- `_short`
unfoldable pub shortened : (String → String) → String → String
shortened strip detail =
    let stripped = strip detail in
    if leb (count stripped) 500 then stripped else str_append (first_characters 500 stripped) "…"

module _ {J A : Type 0} (endpoint : Endpoint J) (shapes : Shapes J A) where
  -- `_document`, of the choices of the answer.
  unfoldable pub chosen : List (Option String) → Option J
  chosen [] = none
  chosen (none ∷ _) = none
  chosen (some text ∷ _) = shapes.loads text

  unfoldable pub answer_document : String → Option J
  unfolding chosen
  answer_document body = elim (shapes.loads body) [
    | none ↦ none
    | some outer ↦ elim (endpoint.choices outer) [ none ↦ none | some texts ↦ chosen texts ]
  ]

  -- `ProviderModel.answer`
  unfoldable pub ask : String → ModelCall → Answered A
  unfolding payload answer_document shortened
  ask name call = elim (endpoint.post (payload name call)) [
    | none ↦ unavailable
    | some response ↦
        if nat_eq response.0 200
        then validated call (answer_document response.1)
        else refused response.0 (shortened endpoint.strip response.1)
  ]
    where
      validated : ModelCall → Option J → Answered A
      validated call none = unusable
      validated call (some document) = elim (shapes.model_validate call.answer_as document) [
        | none ↦ unusable
        | some a ↦ answer a
      ]
