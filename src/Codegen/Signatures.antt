-- ===== src/Codegen/Signatures.antt =====
-- src/claim_triage/codegen.py: what an operation is made of: its parameters,
-- its body and its answer.
use text.Mathlib.Text.{starts_with}
use claim_triage_agent.Common.{
  ℕ, String, Option, none, some, Bool, false, List, [], ◌∷◌, ◌&&◌, ◌==◌, if◌then◌else◌,
  string_equality,
}
use claim_triage_agent.Dict.{Dict, get, present, keys}
use claim_triage_agent.Codegen.{
  Node, Python, Made, made, stopped, mistyped, ◌>>=◌, traverse, at_key, as_mapping,
  mapping_or_empty, concat,
}
use claim_triage_agent.Codegen.Schemas.{is_class, refuse, reads, reference_name, schema_prefix}

pub record Parameter : Type 0 where
  pub name : String
  pub location : String
  pub annotation : String
  pub required : Bool
  pub header : String

pub record Returns : Type 0 where
  pub annotation : String
  pub parse : String
  pub imports : List String
  pub adapter : Option String

pub record Operation : Type 0 where
  pub operation_id : String
  pub method : String
  pub path : String
  pub summary : String
  pub description : String
  pub path_parameters : List Parameter
  pub header_parameters : List Parameter
  pub body : Option String
  pub body_argument : Option String
  pub success : ℕ
  pub returns : Returns

abbrev pub http_methods : List String
http_methods = "get" ∷ "post" ∷ "put" ∷ "patch" ∷ "delete" ∷ []

abbrev pub parameter_prefix : String
parameter_prefix = "#/components/parameters/"

abbrev pub response_prefix : String
response_prefix = "#/components/responses/"

-- tuple(parameter for parameter in parameters if parameter.location == location)
unfoldable pub located : String → List Parameter → List Parameter
located location [] = []
located location (p ∷ ps) =
    let rest = located location ps in if p.location == location then p ∷ rest else rest

-- The statuses of the responses that start with `2`.
unfoldable pub success_keys : List String → List String
success_keys [] = []
success_keys (status ∷ more) =
    let rest = success_keys more in if starts_with status "2" then status ∷ rest else rest

-- `_response`
unfoldable pub resolved_response : Dict Node → Dict Node → String → Made (Dict Node)
unfolding reference_name as_mapping
resolved_response declared responses place =
    if present (get "$ref" declared)
    then (do
      name ← reference_name declared response_prefix place
      elim (get name responses) [
        | none ↦ refuse place (name ∷ " names no component response" ∷ [])
        | some node ↦ as_mapping node
      ])
    else made declared

abbrev pub no_schema : {A : Type 0} → String → Made A
no_schema place = refuse place ("every response carries an application/json schema" ∷ [])

unfoldable pub response_schema : Dict Node → String → Made (Dict Node)
unfolding at_key as_mapping
response_schema response place = elim (get "content" response) [
  | none ↦ no_schema place
  | some node ↦ do
    content ← as_mapping node
    (if present (get "application/json" content)
        then (do
          media ← at_key "application/json" content
          body ← as_mapping media
          schema ← at_key "schema" body
          as_mapping schema)
        else no_schema place)
]

-- `successes[0]`, where there is exactly one.
abbrev pub only_status : String → List ℕ → Made ℕ
only_status place (status ∷ []) = made status
only_status place _ = refuse place ("an operation answers with exactly one success status" ∷ [])

module _ (py : Python) where
  -- `bool(node.get(key, False))`
  abbrev pub is_set : Option Node → Bool
  is_set none = false
  is_set (some node) = py.is_true node

  unfoldable pub snake : String → String
  snake name = py.lower (py.underscore_before_capitals name)

  -- `int(status)`, or its ValueError
  abbrev pub to_int : String → Made ℕ
  to_int status = elim (py.int_of status) [ none ↦ stopped mistyped | some n ↦ made n ]

  unfoldable pub success_status : Dict Node → String → Made ℕ
  unfolding success_keys
  success_status responses place =
      traverse to_int (success_keys (keys responses)) >>= only_status place

  module _ (schemas : Dict Node) where
    unfoldable pub returns_of : Dict Node → String → Made Returns
    unfolding reference_name at_key as_mapping snake
    returns_of schema place =
        if present (get "$ref" schema)
        then (do
          name ← reference_name schema schema_prefix place
          target ← mapping_or_empty (get name schemas)
          (if present (get name schemas) && is_class target
              then made record {
                annotation = name;
                parse = concat (name ∷ ".model_validate" ∷ []);
                imports = name ∷ [];
                adapter = none;
              }
              else refuse place ("the answer must be a named object or enum" ∷ [])))
        else if reads "array" (get "type" schema)
        then (do
          node ← at_key "items" schema
          items ← as_mapping node
          name ← reference_name items schema_prefix (concat (place ∷ " items" ∷ []))
          made record {
            annotation = concat ("list[" ∷ name ∷ "]" ∷ []);
            parse = concat ("_" ∷ py.upper (snake name) ∷ ".validate_python" ∷ []);
            imports = name ∷ [];
            adapter = some (concat ("_" ∷ py.upper (snake name) ∷ []));
          })
        else refuse place ("the answer must be a named object or an array of one" ∷ [])

    -- `_body_schema`
    unfoldable pub body_schema : Dict Node → String → Made (Option String)
    unfolding at_key as_mapping reference_name
    body_schema declared place = elim (get "requestBody" declared) [
      | none ↦ made none
      | some node ↦ do
        request ← as_mapping node
        _ ←
            if is_set (get "required" request)
            then made tt
            else refuse place ("every declared request body is required" ∷ [])
        content ← at_key "content" request
        kinds ← as_mapping content
        media ← at_key "application/json" kinds
        body ← as_mapping media
        inner ← at_key "schema" body
        schema ← as_mapping inner
        name ← reference_name schema schema_prefix (concat (place ∷ " requestBody" ∷ []))
        (if present (get name schemas)
            then made (some name)
            else refuse place ("the request body names no schema" ∷ []))
    ]
