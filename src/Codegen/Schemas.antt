-- ===== src/Codegen/Schemas.antt =====
-- src/claim_triage/codegen.py: what a schema is annotated as, and the schemas that are refused.
pub mod Covered
pub mod Settled
pub mod Agreeing
pub mod Terminating
use Prim.Native.String.{len, slice}
use text.Mathlib.Text.{starts_with}
use claim_triage_agent.Common.{
  ℕ, zero, suc, String, Option, none, some, Bool, true, false, List, [], ◌∷◌, ◌++◌, not, ◌&&◌, ◌||◌,
  ◌==◌, if◌then◌else◌, map, empty, string_equality,
}
use claim_triage_agent.Dict.{Dict, get, present, keys, sorted}
use claim_triage_agent.Codegen.{
  Node, null, str, sequence, mapping, Python, Made, made, stopped, unsupported, mistyped, too_deep,
  ◌>>=◌, traverse, at_key, as_mapping, as_sequence, as_text, text_or_empty, concat, joined,
}

-- `SUPPORTED_KEYWORDS`
unfoldable pub supported_keywords : List String
supported_keywords =
    "$ref" ∷ "type" ∷ "format" ∷ "enum" ∷ "description" ∷ "properties" ∷ "required"
    ∷ "additionalProperties" ∷ "items" ∷ "pattern" ∷ "minimum" ∷ "exclusiveMinimum" ∷ "minLength"
    ∷ "maxLength" ∷ "minItems" ∷ "maxItems" ∷ "x-max-digits" ∷ "x-decimal-places"
    ∷ "x-enum-descriptions" ∷ []

-- `FORMATS`
abbrev pub formats : Dict String
formats =
    ("uuid", "UUID") ∷ ("date", "date") ∷ ("date-time", "datetime") ∷ ("decimal", "Decimal") ∷ []

-- The keywords of `_constraints` in their order, each with its argument.
abbrev pub constraint_keywords : Dict String
constraint_keywords =
    ("exclusiveMinimum", "gt")
    ∷ ("minimum", "ge")
    ∷ ("minLength", "min_length")
    ∷ ("maxLength", "max_length")
    ∷ ("minItems", "min_length")
    ∷ ("maxItems", "max_length")
    ∷ ("x-max-digits", "max_digits")
    ∷ ("x-decimal-places", "decimal_places")
    ∷ []

abbrev pub schema_prefix : String
schema_prefix = "#/components/schemas/"

-- `name in names`
unfoldable pub among : String → List String → Bool
among name [] = false
among name (n ∷ names) = n == name || among name names

-- `set(names) - others`, for names that differ
unfoldable pub set_difference : List String → List String → List String
set_difference others [] = []
set_difference others (name ∷ names) =
    let rest = set_difference others names in if among name others then rest else name ∷ rest

-- `UnsupportedContract(f"{where}: {what}")`
abbrev pub refuse : {A : Type 0} → String → List String → Made A
refuse place what = stopped (unsupported (concat (place ∷ ": " ∷ what)))

-- `_check_supported`
unfoldable pub check_supported : Dict Node → String → Made Unit
unfolding supported_keywords
check_supported schema place =
    let unread = sorted (set_difference supported_keywords (keys schema)) in
    if empty unread
    then made tt
    else refuse place ("the generator does not read " ∷ joined ", " unread ∷ [])

-- `node == text`
unfoldable pub reads : String → Option Node → Bool
reads s (some (str t)) = t == s
reads s _ = false

unfoldable pub is_object : Dict Node → Bool
unfolding reads
is_object schema = reads "object" (get "type" schema) || present (get "properties" schema)

unfoldable pub is_enum : Dict Node → Bool
unfolding is_object
is_enum schema = present (get "enum" schema) && not (is_object schema)

unfoldable pub is_class : Dict Node → Bool
unfolding is_enum is_object
is_class schema = is_enum schema || is_object schema

-- The name that a reference holds behind its prefix.
unfoldable pub name_behind : String → String → Node → Made String
name_behind prefix place (str reference) =
    if starts_with reference prefix
    then made (slice reference (len prefix) (len reference))
    else refuse place ("only references into " ∷ prefix ∷ " are supported" ∷ [])
name_behind prefix place _ = refuse place ("only references into " ∷ prefix ∷ " are supported" ∷ [])

-- `_reference_name`
unfoldable pub reference_name : Dict Node → String → String → Made String
unfolding at_key name_behind
reference_name schema prefix place = at_key "$ref" schema >>= name_behind prefix place

module _ (py : Python) where
  -- The constraints that the keywords of a table ask for.
  unfoldable pub given : Dict String → Dict Node → List String
  given [] schema = []
  given (ka ∷ table) schema = elim (get ka.0 schema) [
    | none ↦ given table schema
    | some node ↦ concat (ka.1 ∷ "=" ∷ py.str_of node ∷ []) ∷ given table schema
  ]

  abbrev pub pattern_given : Option Node → List String
  pattern_given none = []
  pattern_given (some node) = concat ("pattern=" ∷ py.repr_of node ∷ []) ∷ []

  unfoldable pub constraints : Dict Node → String → Made (List String)
  unfolding given check_supported
  constraints schema place = do
    _ ← check_supported schema place
    made (given constraint_keywords schema ++ pattern_given (get "pattern" schema))

  -- `_string_annotation`
  abbrev pub format_annotation : String → Option Node → Made String
  format_annotation place none = made "str"
  format_annotation place (some null) = made "str"
  format_annotation place (some (str format)) = elim (get format formats) [
    | none ↦ refuse place ("no support for the string format " ∷ py.repr_of (str format) ∷ [])
    | some annotation ↦ made annotation
  ]
  format_annotation place (some (sequence xs)) = stopped mistyped
  format_annotation place (some (mapping es)) = stopped mistyped
  format_annotation place (some node) =
      refuse place ("no support for the string format " ∷ py.repr_of node ∷ [])

  -- One value of `_literal`, which must be a text.
  abbrev pub literal_value : String → Node → Made String
  literal_value place (str value) = made (concat ("\"" ∷ value ∷ "\"" ∷ []))
  literal_value place _ = refuse place ("only string enums are supported" ∷ [])

  unfoldable pub literal : List Node → String → Made String
  literal values place = do
    quoted ← traverse (literal_value place) values
    made (concat ("Literal[" ∷ joined ", " quoted ∷ "]" ∷ []))

  -- An annotation, with the constraints of its own schema.
  unfoldable pub with_constraints : Dict Node → String → String → Made (String × List String)
  unfolding constraints
  with_constraints schema place annotation = do
    own ← constraints schema place
    made (annotation, own)

  unfoldable pub enum_annotation : Dict Node → String → Made (String × List String)
  unfolding at_key as_sequence literal with_constraints
  enum_annotation schema place = do
    node ← at_key "enum" schema
    values ← as_sequence node
    annotation ← literal values place
    with_constraints schema place annotation

  abbrev pub shown : Option Node → String
  shown none = py.repr_of null
  shown (some node) = py.repr_of node

  -- The annotation of a text or a number.
  unfoldable pub plain_annotation : Dict Node → String → Made (String × List String)
  unfolding with_constraints reads
  plain_annotation schema place =
      if reads "string" (get "type" schema)
      then (do
        annotation ← format_annotation place (get "format" schema)
        with_constraints schema place annotation)
      else if reads "integer" (get "type" schema)
      then with_constraints schema place "int"
      else refuse place ("no support for a schema of type " ∷ shown (get "type" schema) ∷ [])

  -- The annotation of an array, from that of its items.
  unfoldable pub listed_annotation :
      Dict Node → String → String × List String → Made (String × List String)
  unfolding with_constraints
  listed_annotation schema place inner =
      if empty inner.1
      then with_constraints schema place (concat ("list[" ∷ inner.0 ∷ "]" ∷ []))
      else refuse place ("constraints on array items are not supported" ∷ [])

  -- `_annotation` of a schema, where `again` is its recursive call.
  module _ (again : Dict Node → String → Made (String × List String)) (schemas : Dict Node) where
    unfoldable pub referenced : Dict Node → String → Made (String × List String)
    unfolding reference_name at_key as_mapping
    referenced schema place = do
      name ← reference_name schema schema_prefix place
      node ← at_key name schemas
      target ← as_mapping node
      (if is_class target then made (name, []) else again target name)

    unfoldable pub array_annotation : Dict Node → String → Made (String × List String)
    unfolding at_key as_mapping listed_annotation
    array_annotation schema place = do
      node ← at_key "items" schema
      element ← as_mapping node
      inner ← again element (concat (place ∷ "[]" ∷ []))
      listed_annotation schema place inner

    -- What `schema.get("type")` decides.
    unfoldable pub typed_annotation : Dict Node → String → Made (String × List String)
    typed_annotation schema place =
        if reads "array" (get "type" schema)
        then array_annotation schema place
        else plain_annotation schema place

    unfoldable pub annotate : Dict Node → String → Made (String × List String)
    annotate schema place =
        if present (get "$ref" schema)
        then referenced schema place
        else if present (get "enum" schema)
        then enum_annotation schema place
        else typed_annotation schema place

  module _ (schemas : Dict Node) where
    -- `_annotation`, on the recursion depth that Python has left.
    unfoldable pub annotation : ℕ → Dict Node → String → Made (String × List String)
    annotation zero schema place = stopped too_deep
    annotation (suc depth) schema place = annotate (annotation depth) schemas schema place
