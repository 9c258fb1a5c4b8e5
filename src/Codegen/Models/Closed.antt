-- ===== src/Codegen/Models/Closed.antt =====
-- What every schema of the document is, once its models are generated.
use claim_triage_agent.Common.{
  ℕ, ◌≡◌, refl, ◌⊎◌, inl, inr, String, Bool, true, false, List, [], ◌∷◌, empty, if◌then◌else◌,
  arith, All, Bool-cases, string_equality,
}
use claim_triage_agent.Dict.{Dict, get}
use claim_triage_agent.Codegen.{
  Node, Python, Made, made, ◌>>=◌, made-bind, traverse, at_key, as_text, as_sequence, as_mapping,
  mapping_or_empty, sequence_or_empty, text_or_empty,
}
use claim_triage_agent.Codegen.Prose.{text_lines}
use claim_triage_agent.Codegen.Schemas.{
  check_supported, is_object, is_enum, is_class, annotation, reads, refuse,
}
use claim_triage_agent.Codegen.Schemas.Covered.{
  IsRead, IsCovered, check_supported-IsRead, annotation-IsCovered,
}
use claim_triage_agent.Codegen.Models.{
  models_blocks, member_name, member_lines, schemas_of, schema_block, model_class, enum_class,
  property_lines, field_lines, is_false, class_indent,
}

made-traverse :
    {A B : Type 0} (f : A → Made B) (xs : List A) (ys : List B)
    → traverse f xs ≡ made ys
    → All (λ x. (y : B) × (f x ≡ made y)) xs
unfolding traverse
made-traverse f [] ys h = tt
made-traverse f (x ∷ xs) ys h =
    let (y, made_y, rest) = made-bind (f x) _ ys h in
    let (zs, made_zs, _) = made-bind (traverse f xs) _ ys rest in
    ((y, made_y), made-traverse f xs zs made_zs)

All-map :
    {A : Type 0} (P Q : A → Type 0) (xs : List A) → ((x : A) → P x → Q x) → All P xs → All Q xs
All-map P Q [] step h = tt
All-map P Q (x ∷ xs) step h = (step x h.0, All-map P Q xs step h.1)

-- A property whose schema is covered by the generator.
unfoldable pub IsCoveredProperty : String × Node → Type 0
IsCoveredProperty kv = (schema : Dict Node) × (as_mapping kv.1 ≡ made schema) × IsCovered schema

-- An object schema that is closed, and has properties, all of them covered.
unfoldable pub IsClosed : Dict Node → Type 0
IsClosed schema =
    (is_false (get "additionalProperties" schema) ≡ true)
    × ((properties : Dict Node) × (mapping_or_empty (get "properties" schema) ≡ made properties)
        × (empty properties ≡ false)
        × All IsCoveredProperty properties)

-- A value of an enum that becomes a member: a text, with a usable name.
unfoldable pub IsMember : Python → String → Node → Type 0
IsMember py name node =
    (value : String) × (member : String) × (as_text node ≡ made value)
    × (member_name py value name ≡ made member)

-- An enum of texts, every one of them a member.
unfoldable pub IsTextEnum : Python → String → Dict Node → Type 0
IsTextEnum py name schema =
    (reads "string" (get "type" schema) ≡ true)
    × ((node : Node) × (values : List Node) × (at_key "enum" schema ≡ made node)
        × (as_sequence node ≡ made values)
        × All (IsMember py name) values)

-- A named schema that models are generated of: an enum of texts, a closed object, or one that is
-- neither an enum nor an object, of which the keywords are read and nothing else.
unfoldable pub IsAccepted : Python → String × Node → Type 0
IsAccepted py kv =
    (schema : Dict Node) × (as_mapping kv.1 ≡ made schema)
    × IsRead schema
    × (((is_enum schema ≡ true) × IsTextEnum py kv.0 schema)
        ⊎ ((is_object schema ≡ true) × IsClosed schema)
        ⊎ (is_class schema ≡ false))

pub guard_held :
    {A : Type 0} (b : Bool) (name : String) (what : List String) (f : Unit → Made A) (a : A)
    → ((if b then made tt else refuse name what) >>= f) ≡ made a
    → (b ≡ true) × (f tt ≡ made a)
guard_held true name what f a h = (refl, h)
guard_held false name what f a h = absurd (ground (arith, h))

guard_free :
    {A : Type 0} (b : Bool) (name : String) (what : List String) (f : Unit → Made A) (a : A)
    → ((if b then refuse name what else made tt) >>= f) ≡ made a
    → (b ≡ false) × (f tt ≡ made a)
guard_free false name what f a h = (refl, h)
guard_free true name what f a h = absurd (ground (arith, h))

member_lines-IsMember :
    (py : Python) (name : String) (described : Dict Node) (node : Node)
    → (lines : List String) × (member_lines py name described node ≡ made lines)
    → IsMember py name node
unfolding member_lines IsMember
member_lines-IsMember py name described node (lines, h) =
    let (value, is_text, rest) = made-bind (as_text node) _ lines h in
    let (_, _, rest) = made-bind (text_or_empty (get value described)) _ lines rest in
    let (member, named, _) = made-bind (member_name py value name) _ lines rest in
    (value, member, is_text, named)

enum_class-IsTextEnum :
    (py : Python) (name s : String) (schema : Dict Node)
    → enum_class py name schema ≡ made s
    → IsRead schema × IsTextEnum py name schema
unfolding enum_class IsTextEnum
enum_class-IsTextEnum py name s schema h =
    let (_, supported, rest) = made-bind (check_supported schema name) _ s h in
    let (texts, rest) = guard_held (reads "string" (get "type" schema)) name _ _ s rest in
    let (described, _, rest) =
      made-bind (mapping_or_empty (get "x-enum-descriptions" schema)) _ s rest in
    let (told, _, rest) = made-bind (text_or_empty (get "description" schema)) _ s rest in
    let (docs, _, rest) = made-bind (text_lines py told class_indent) _ s rest in
    let (node, there, rest) = made-bind (at_key "enum" schema) _ s rest in
    let (values, are_values, rest) = made-bind (as_sequence node) _ s rest in
    let (members, each, _) =
      made-bind (traverse (member_lines py name described) values) _ s rest in
    (
      check_supported-IsRead schema name supported,
      (
        texts,
        (
          node,
          values,
          there,
          are_values,
          All-map _ (IsMember py name) values (member_lines-IsMember py name described)
              (made-traverse _ values members each),
        ),
      ),
    )

no_class :
    (schema : Dict Node)
    → is_enum schema ≡ false
    → is_object schema ≡ false
    → is_class schema ≡ false
unfolding is_class
no_class schema no_enum no_object = rw (no_enum, no_object) refl

module _ (py : Python) (depth : ℕ) (schemas : Dict Node) where
  property-IsCovered :
      (name : String) (required : List Node) (kv : String × Node)
      → (lines : List String) × (property_lines py depth schemas name required kv ≡ made lines)
      → IsCoveredProperty kv
  unfolding property_lines field_lines IsCoveredProperty
  property-IsCovered name required kv (lines, h) =
      let (schema, as_schema, rest) = made-bind (as_mapping kv.1) _ lines h in
      let (a, annotated, _) = made-bind (annotation py schemas depth schema _) _ lines rest in
      (schema, as_schema, annotation-IsCovered py schemas depth schema _ a annotated)

  model_class-IsClosed :
      (name s : String) (schema : Dict Node)
      → model_class py depth schemas name schema ≡ made s
      → IsRead schema × IsClosed schema
  unfolding model_class IsClosed
  model_class-IsClosed name s schema h =
      let (_, supported, rest) = made-bind (check_supported schema name) _ s h in
      let (closed, rest) =
        guard_held (is_false (get "additionalProperties" schema)) name _ _ s rest in
      let (required, _, rest) = made-bind (sequence_or_empty (get "required" schema)) _ s rest in
      let (properties, are_properties, rest) =
        made-bind (mapping_or_empty (get "properties" schema)) _ s rest in
      let (some_there, rest) = guard_free (empty properties) name _ _ s rest in
      let (told, _, rest) = made-bind (text_or_empty (get "description" schema)) _ s rest in
      let (docs, _, rest) = made-bind (text_lines py told class_indent) _ s rest in
      let (fields, each, _) =
        made-bind (traverse (property_lines py depth schemas name required) properties) _ s rest in
      (
        check_supported-IsRead schema name supported,
        (
          closed,
          (
            properties,
            are_properties,
            some_there,
            All-map _ IsCoveredProperty properties (property-IsCovered name required)
                (made-traverse _ properties fields each),
          ),
        ),
      )

  block-IsAccepted :
      (kv : String × Node)
      → (s : String) × (schema_block py depth schemas kv ≡ made s)
      → IsAccepted py kv
  unfolding schema_block IsAccepted
  block-IsAccepted (name, node) (s, h) =
      let (schema, as_schema, rest) = made-bind (as_mapping node) _ s h in
      elim (Bool-cases (is_enum schema)) [
        | inl enum ↦
            let (supported, texts) = enum_class-IsTextEnum py name s schema (rw enum at rest) in
            (schema, as_schema, supported, inl (enum, texts))
        | inr no_enum ↦ elim (Bool-cases (is_object schema)) [
          | inl object ↦
              let (supported, closed) =
                model_class-IsClosed name s schema (rw (no_enum, object) at rest) in
              (schema, as_schema, supported, inr (inl (object, closed)))
          | inr no_object ↦
              let (_, supported, _) =
                made-bind (check_supported schema name) _ s (rw (no_enum, no_object) at rest) in
              (
                schema,
                as_schema,
                check_supported-IsRead schema name supported,
                inr (inr (no_class schema no_enum no_object)),
              )
        ]
      ]

-- Models are generated only of a document whose named schemas have no keyword that the generator does
-- not read, and each is an enum of texts, all with usable names; a closed object with a property or
-- more, each a reference or a schema whose keywords are read; or neither an enum nor an object.
pub models_closed :
    (py : Python) (depth : ℕ) (document : Dict Node) (blocks : List String)
    → models_blocks py depth document ≡ made blocks
    → (schemas : Dict Node) × (schemas_of document ≡ made schemas) × All (IsAccepted py) schemas
unfolding models_blocks
models_closed py depth document blocks h =
    let (schemas, are_schemas, each) = made-bind (schemas_of document) _ blocks h in
    (
      schemas,
      are_schemas,
      All-map _ (IsAccepted py) schemas (block-IsAccepted py depth schemas)
          (made-traverse (schema_block py depth schemas) schemas blocks each),
    )
