-- ===== src/Codegen/Methods.antt =====
-- src/claim_triage/codegen.py: the client method of an operation, and the error codes.
use claim_triage_agent.Common.{
  String, Option, none, some, Bool, false, List, [], ◌∷◌, ◌++◌, map, ◌==◌, ◌||◌, not, empty,
  if◌then◌else◌, string_equality,
}
use claim_triage_agent.Dict.{Dict, get}
use claim_triage_agent.Codegen.{
  Node, Python, Made, made, ◌>>=◌, traverse, at_key, as_sequence, as_text, as_mapping,
  mapping_or_empty, text_or_empty, concat, joined, flattened,
}
use claim_triage_agent.Codegen.Prose.{text_lines}
use claim_triage_agent.Codegen.Models.{schemas_of, member_name}
use claim_triage_agent.Codegen.Signatures.{Parameter, Operation}

abbrev pub method_indent : String
method_indent = "        "

abbrev pub call_indent : String
call_indent = "            "

abbrev pub argument_line : Parameter → String
argument_line p = concat (method_indent ∷ p.header ∷ ": " ∷ p.annotation ∷ "," ∷ [])

abbrev pub header_line : Parameter → String
header_line p = concat (call_indent ∷ "headers={\"" ∷ p.name ∷ "\": " ∷ p.header ∷ "}," ∷ [])

-- The argument that carries the body, where the operation has one.
abbrev pub body_line : Option String → Option String → List String
body_line (some argument) (some body) =
    concat (method_indent ∷ argument ∷ ": " ∷ body ∷ "," ∷ []) ∷ []
body_line _ _ = []

abbrev pub dumped_line : Option String → List String
dumped_line none = []
dumped_line (some argument) =
    concat (call_indent ∷ "body=" ∷ argument ∷ ".model_dump(mode=\"json\")," ∷ []) ∷ []

-- What follows the positional arguments.
abbrev pub keyword_lines : List Parameter → List String
keyword_lines [] = []
keyword_lines (p ∷ ps) = concat (method_indent ∷ "*," ∷ []) ∷ map argument_line (p ∷ ps)

unfoldable pub meaning : Operation → String
meaning op =
    if op.description == "" then op.summary else concat (op.summary ∷ "\n\n" ∷ op.description ∷ [])

-- `_error_codes`: the codes, and what the document says of each.
unfoldable pub error_codes : Dict Node → Made (List String × Dict Node)
unfolding schemas_of at_key as_mapping mapping_or_empty as_sequence as_text
error_codes document = do
  schemas ← schemas_of document
  node ← at_key "ErrorCode" schemas
  codes ← as_mapping node
  described ← mapping_or_empty (get "x-enum-descriptions" codes)
  inner ← at_key "enum" codes
  values ← as_sequence inner
  names ← traverse as_text values
  made (names, described)

module _ (py : Python) where
  unfoldable pub path_expression : Operation → String
  path_expression op =
      if empty op.path_parameters
      then py.json_text op.path
      else concat ("f\"" ∷ py.placeholders_quoted op.path ∷ "\"" ∷ [])

  -- The lines above the docstring.
  unfoldable pub signature_lines : Operation → List String
  signature_lines op =
      concat ("    def " ∷ op.operation_id ∷ "(" ∷ [])
        ∷ "        self,"
        ∷ map argument_line op.path_parameters
      ++ body_line op.body_argument op.body
      ++ keyword_lines op.header_parameters
      ++ concat ("    ) -> " ∷ op.returns.annotation ∷ ":" ∷ []) ∷ []

  -- The lines of the call, below the docstring.
  unfoldable pub call_lines : Operation → List String
  unfolding path_expression
  call_lines op =
      "        return self._request("
        ∷ concat (call_indent ∷ "\"" ∷ op.method ∷ "\"," ∷ [])
        ∷ concat (call_indent ∷ path_expression op ∷ "," ∷ [])
        ∷ concat (call_indent ∷ "parse=" ∷ op.returns.parse ∷ "," ∷ [])
        ∷ dumped_line op.body_argument
      ++ map header_line op.header_parameters
      ++ concat (call_indent ∷ "expected=" ∷ py.digits op.success ∷ "," ∷ []) ∷ "        )" ∷ []

  unfoldable pub method_source : Operation → Made String
  unfolding signature_lines meaning call_lines
  method_source op = do
    docs ← text_lines py (meaning op) method_indent
    made (joined "\n" (signature_lines op ++ docs ++ call_lines op))

  unfoldable pub error_name : String → String
  error_name code =
      concat (joined "" (map py.capitalize (py.split_underscores code)) ∷ "Error" ∷ [])

  unfoldable pub error_class : Dict Node → String → Made (List String)
  unfolding text_or_empty error_name
  error_class described value = do
    told ← text_or_empty (get value described)
    docs ← text_lines py told "    "
    made ("" ∷ concat ("class " ∷ error_name value ∷ "(Refusal):" ∷ []) ∷ docs)

  unfoldable pub error_classes : Dict Node → Made String
  unfolding error_codes error_class
  error_classes document = do
    codes ← error_codes document
    each ← traverse (error_class codes.1) codes.0
    made (concat (joined "\n" (flattened each) ∷ "\n" ∷ []))

  unfoldable pub code_entry : String → Made String
  unfolding member_name error_name
  code_entry value = do
    member ← member_name py value value
    made (concat ("    ErrorCode." ∷ member ∷ ": " ∷ error_name value ∷ "," ∷ []))

  unfoldable pub code_entries : Dict Node → Made String
  unfolding error_codes code_entry
  code_entries document = do
    codes ← error_codes document
    each ← traverse code_entry codes.0
    made (joined "\n" each)

-- `_client_models`
unfoldable pub client_models : List Operation → List String
client_models [] = []
client_models (op ∷ ops) =
    op.returns.imports ++ elim op.body [ none ↦ [] | some name ↦ name ∷ [] ] ++ client_models ops

unfoldable pub holds_uuid : List Parameter → Bool
holds_uuid [] = false
holds_uuid (p ∷ ps) = p.annotation == "UUID" || holds_uuid ps

-- `_uses_uuid`
unfoldable pub uses_uuid : List Operation → Bool
unfolding holds_uuid
uses_uuid [] = false
uses_uuid (op ∷ ops) = holds_uuid op.path_parameters || uses_uuid ops

-- `_uses_quote`
unfoldable pub uses_quote : List Operation → Bool
uses_quote [] = false
uses_quote (op ∷ ops) = not (empty op.path_parameters) || uses_quote ops
