-- ===== src/Codegen/Operations.antt =====
-- src/claim_triage/codegen.py: the operations that the document declares.
pub mod Parameters
pub mod Kept
use claim_triage_agent.Common.{
  ℕ, zero, suc, String, none, some, true, false, List, [], ◌∷◌, ◌||◌, if◌then◌else◌,
  string_equality,
}
use claim_triage_agent.Dict.{Dict, get, present}
use claim_triage_agent.Codegen.{
  Node, Python, Made, made, stopped, too_deep, ◌>>=◌, traverse, at_key, as_mapping,
  mapping_or_empty, sequence_or_empty, text_or_empty, concat, flattened,
}
use claim_triage_agent.Codegen.Schemas.{refuse, reads, reference_name, annotation, among}
use claim_triage_agent.Codegen.Signatures.{
  Parameter, Operation, http_methods, parameter_prefix, located, is_set, success_status,
  resolved_response, response_schema, returns_of, body_schema, snake,
}

module _ (py : Python) (depth : ℕ) (schemas : Dict Node) where
  module _ (parameters : Dict Node) where
    -- `_parameter` of an inline declaration.
    unfoldable pub inline_parameter : Dict Node → String → Made Parameter
    unfolding at_key as_mapping annotation
    inline_parameter node place = do
      location ← at_key "in" node
      (if reads "path" (some location) || reads "header" (some location)
          then (do
            schema ← at_key "schema" node
            name ← at_key "name" node
            inner ← as_mapping schema
            annotated ←
                annotation py schemas depth inner (concat (place ∷ " " ∷ py.str_of name ∷ []))
            made record {
              name = py.str_of name;
              location = py.str_of location;
              annotation = annotated.0;
              required = is_set py (get "required" node);
              header = py.lower (py.strip_underscores (py.others_to_underscore (py.str_of name)));
            })
          else refuse place ("no support for a parameter in " ∷ py.str_of location ∷ []))

    -- `_parameter`, on the recursion depth that Python has left.
    unfoldable pub parameter : ℕ → String → Dict Node → Made Parameter
    unfolding reference_name as_mapping inline_parameter
    parameter zero place node = stopped too_deep
    parameter (suc left) place node = elim (present (get "$ref" node)) [
      | true ↦ do
        name ← reference_name node parameter_prefix place
        elim (get name parameters) [
          | none ↦ refuse place (name ∷ " names no component parameter" ∷ [])
          | some target ↦ as_mapping target >>= parameter left place
        ]
      | false ↦ inline_parameter node place
    ]

    -- The parameters that an operation declares, each resolved.
    unfoldable pub declared_parameters : Dict Node → String → Made (List Parameter)
    unfolding sequence_or_empty as_mapping parameter
    declared_parameters declared place = do
      nodes ← sequence_or_empty (get "parameters" declared)
      traverse (λ node. as_mapping node >>= parameter depth place) nodes

    -- The rest of `_operation`, once its parameters and its status of success are known.
    unfoldable pub answered_operation :
        Dict Node
        → Dict Node
        → String
        → String
        → String
        → Node
        → List Parameter
        → Dict Node
        → ℕ
        → Made Operation
    unfolding at_key as_mapping body_schema resolved_response response_schema returns_of
        text_or_empty located snake
    answered_operation responses declared method path place id all answers success = do
      body ← body_schema py schemas declared place
      inner ← at_key (py.digits success) answers
      answer ← as_mapping inner
      response ← resolved_response answer responses place
      schema ← response_schema response (concat (place ∷ " " ∷ py.digits success ∷ []))
      description ← text_or_empty (get "description" declared)
      returns ← returns_of py schemas schema (concat (place ∷ " " ∷ py.digits success ∷ []))
      made record {
        operation_id = py.str_of id;
        method = py.upper method;
        path = path;
        summary = py.str_of (elim (get "summary" declared) [ none ↦ id | some told ↦ told ]);
        description = description;
        path_parameters = located "path" all;
        header_parameters = located "header" all;
        body = body;
        body_argument = elim body [ none ↦ none | some name ↦ some (snake py name) ];
        success = success;
        returns = returns;
      }

    -- `_operation`, which resolves the parameters once for each of the two places.
    unfoldable pub operation : Dict Node → Dict Node → String → String → String → Made Operation
    unfolding declared_parameters at_key as_mapping success_status answered_operation
    operation responses declared method path place = do
      _ ←
          if is_set py (get "operationId" declared)
          then made tt
          else refuse place ("every operation declares an operationId" ∷ [])
      id ← at_key "operationId" declared
      all ← declared_parameters declared place
      node ← at_key "responses" declared
      answers ← as_mapping node
      success ← success_status py answers place
      answered_operation responses declared method path place id all answers success

    -- One method of a path.
    unfoldable pub method_operation : Dict Node → String → String × Node → Made Operation
    unfolding as_mapping operation among
    method_operation responses path (method, node) =
        if among method http_methods
        then (do
          declared ← as_mapping node
          operation responses declared method path (concat (py.upper method ∷ " " ∷ path ∷ [])))
        else refuse path ("no support for the " ∷ method ∷ " of an operation" ∷ [])

    unfoldable pub path_operations : Dict Node → String × Node → Made (List Operation)
    unfolding as_mapping method_operation
    path_operations responses (path, node) = do
      methods ← as_mapping node
      traverse (method_operation responses path) methods

-- `_operations`
unfoldable pub operations : Python → ℕ → Dict Node → Made (List Operation)
unfolding at_key as_mapping mapping_or_empty path_operations
operations py depth document = do
  node ← at_key "components" document
  components ← as_mapping node
  inner ← at_key "schemas" components
  schemas ← as_mapping inner
  parameters ← mapping_or_empty (get "parameters" components)
  responses ← mapping_or_empty (get "responses" components)
  found ← at_key "paths" document
  paths ← as_mapping found
  each ← traverse (path_operations py depth schemas parameters responses) paths
  made (flattened each)
