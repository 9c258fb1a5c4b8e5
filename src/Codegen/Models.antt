-- ===== src/Codegen/Models.antt =====
-- src/claim_triage/codegen.py: the document as it is checked, and the classes of its schemas.
pub mod Closed
use Prim.Native.String.{◌++◌ as str_append}
use claim_triage_agent.Common.{
  ℕ, String, Option, some, Bool, true, false, List, [], ◌∷◌, ◌++◌, ◌||◌, ◌==◌, if◌then◌else◌, empty,
  string_equality,
}
use claim_triage_agent.Dict.{Dict, get, present}
use claim_triage_agent.Codegen.{
  Node, str, flag, mapping, Python, Made, made, stopped, unsupported, ◌>>=◌, traverse, at_key,
  as_mapping, as_sequence, as_text, mapping_or_empty, sequence_or_empty, text_or_empty, concat,
  joined, flattened, entries_of,
}
use claim_triage_agent.Codegen.Prose.{text_lines, comments}
use claim_triage_agent.Codegen.Schemas.{
  check_supported, is_enum, is_object, is_class, refuse, reads, reference_name, schema_prefix,
  annotation,
}

-- The first key that the document does not declare.
unfoldable pub declares_all : String → Dict Node → List String → Made Unit
declares_all path document [] = made tt
declares_all path document (key ∷ more) =
    let rest = declares_all path document more in
    if present (get key document)
    then rest
    else stopped (unsupported (concat (path ∷ " declares no " ∷ key ∷ [])))

-- `_document`, of what `yaml.safe_load` returns.
unfoldable pub checked_document : String → Node → Made (Dict Node)
unfolding declares_all at_key as_mapping
checked_document path (mapping es) = do
  _ ← declares_all path (entries_of es) ("openapi" ∷ "info" ∷ "paths" ∷ "components" ∷ [])
  node ← at_key "components" (entries_of es)
  components ← as_mapping node
  (if present (get "schemas" components)
      then made (entries_of es)
      else stopped (unsupported (concat (path ∷ " declares no components.schemas" ∷ []))))
checked_document path _ =
    stopped (unsupported (concat (path ∷ " does not hold an OpenAPI document" ∷ [])))

-- `document["components"]["schemas"]`
unfoldable pub schemas_of : Dict Node → Made (Dict Node)
unfolding at_key as_mapping
schemas_of document = do
  node ← at_key "components" document
  components ← as_mapping node
  inner ← at_key "schemas" components
  as_mapping inner

abbrev pub is_false : Option Node → Bool
is_false (some (flag false)) = true
is_false _ = false

-- `field in set(required)`
unfoldable pub listed : String → List Node → Bool
listed field [] = false
listed field (node ∷ nodes) = reads field (some node) || listed field nodes

abbrev pub class_indent : String
class_indent = "    "

module _ (py : Python) where
  unfoldable pub member_name : String → String → Made String
  member_name value place =
      let member = py.upper (py.others_to_underscore value) in
      if member == "" || py.starts_with_digit member
      then refuse place (py.repr_of (str value) ∷ " has no usable member name" ∷ [])
      else made member

  -- The lines of one member of an enum.
  unfoldable pub member_lines : String → Dict Node → Node → Made (List String)
  unfolding as_text text_or_empty member_name
  member_lines name described node = do
    value ← as_text node
    told ← text_or_empty (get value described)
    member ← member_name value name
    made (
        comments py told class_indent
        ++ concat (class_indent ∷ member ∷ " = \"" ∷ value ∷ "\"" ∷ []) ∷ [])

  unfoldable pub enum_class : String → Dict Node → Made String
  unfolding check_supported mapping_or_empty text_or_empty member_lines
  enum_class name schema = do
    _ ← check_supported schema name
    _ ←
        if reads "string" (get "type" schema)
        then made tt
        else refuse name ("only string enums are supported" ∷ [])
    described ← mapping_or_empty (get "x-enum-descriptions" schema)
    told ← text_or_empty (get "description" schema)
    docs ← text_lines py told class_indent
    node ← at_key "enum" schema
    values ← as_sequence node
    members ← traverse (member_lines name described) values
    made (joined "\n" (concat ("class " ∷ name ∷ "(StrEnum):" ∷ []) ∷ docs ++ flattened members))

  -- `_annotation` within the recursion depth that Python has, and the schemas of the document.
  module _ (depth : ℕ) (schemas : Dict Node) where
    -- `_referenced_description`, of a schema that has no description of its own.
    unfoldable pub referenced_description : Dict Node → Made String
    unfolding reference_name at_key as_mapping
    referenced_description schema =
        if present (get "$ref" schema)
        then (do
          name ← reference_name schema schema_prefix (py.str_of_mapping schema)
          node ← at_key name schemas
          target ← as_mapping node
          made (elim (get "description" target) [ some (str s) ↦ s | _ ↦ "" ]))
        else made ""

    unfoldable pub field_description : Dict Node → Made String
    unfolding text_or_empty referenced_description
    field_description schema = do
      told ← text_or_empty (get "description" schema)
      (if told == "" then referenced_description schema else made told)

    -- `_field`
    unfoldable pub field_lines : Bool → String → String → Dict Node → Made (List String)
    unfolding annotation field_description
    field_lines required place name schema = do
      annotated ← annotation py schemas depth schema place
      told ← field_description schema
      let held = if required then annotated.0 else str_append annotated.0 " | None" in
          let arguments = if required then annotated.1 else "default=None" ∷ annotated.1 in
          made (
            comments py told class_indent
            ++ (if empty arguments
                then concat (class_indent ∷ name ∷ ": " ∷ held ∷ []) ∷ []
                else concat (
                    class_indent
                    ∷ name
                    ∷ ": "
                    ∷ held
                    ∷ " = Field("
                    ∷ joined ", " arguments
                    ∷ ")"
                    ∷ [])
                  ∷ []))

    -- One property of an object schema.
    unfoldable pub property_lines : String → List Node → String × Node → Made (List String)
    unfolding as_mapping field_lines listed
    property_lines name required (field, node) = do
      schema ← as_mapping node
      field_lines (listed field required) (concat (name ∷ "." ∷ field ∷ [])) field schema

    unfoldable pub model_class : String → Dict Node → Made String
    unfolding check_supported sequence_or_empty mapping_or_empty text_or_empty property_lines
    model_class name schema = do
      _ ← check_supported schema name
      _ ←
          if is_false (get "additionalProperties" schema)
          then made tt
          else refuse name ("every object schema sets additionalProperties: false" ∷ [])
      required ← sequence_or_empty (get "required" schema)
      properties ← mapping_or_empty (get "properties" schema)
      _ ←
          if empty properties
          then refuse name ("an object schema with no properties says nothing" ∷ [])
          else made tt
      told ← text_or_empty (get "description" schema)
      docs ← text_lines py told class_indent
      fields ← traverse (property_lines name required) properties
      made (
          joined "\n" (
            concat ("class " ∷ name ∷ "(BaseModel):" ∷ []) ∷ docs
            ++ "    model_config = ConfigDict(extra=\"forbid\")" ∷ "" ∷ flattened fields))

    -- `_schema_block`
    unfoldable pub schema_block : String × Node → Made String
    unfolding as_mapping enum_class model_class check_supported
    schema_block (name, node) = do
      schema ← as_mapping node
      (if is_enum schema
          then enum_class name schema
          else if is_object schema
          then model_class name schema
          else (do
            _ ← check_supported schema name
            (if is_class schema
                then refuse name ("a named schema must be an object or a string enum" ∷ [])
                else made "")))

  -- `_models_source`, behind the constant header.
  unfoldable pub models_blocks : ℕ → Dict Node → Made (List String)
  unfolding schemas_of schema_block
  models_blocks depth document = do
    schemas ← schemas_of document
    traverse (schema_block depth schemas) schemas
