-- ===== src/Codegen/Schemas/Agreeing.antt =====
-- An annotation is the same for recursive calls that agree on what it calls them with.
use claim_triage_agent.Common.{
  ◌≡◌, inl, inr, String, false, List, [], ◌∷◌, empty, Bool-cases, string_equality,
}
use claim_triage_agent.Dict.{Dict, get, present}
use claim_triage_agent.Codegen.{Node, concat, Python, Made, made, at_key, as_mapping}
use claim_triage_agent.Codegen.Schemas.{
  is_class, reference_name, schema_prefix, referenced, array_annotation, listed_annotation,
  enum_annotation, plain_annotation, with_constraints, typed_annotation, annotate, annotation,
  reads,
}
use claim_triage_agent.Codegen.Schemas.Settled.{
  IsSettled, Agree, Agree-refl, Agree-bind, IsSettled-bind, at_key-IsSettled, as_mapping-IsSettled,
  as_sequence-IsSettled, reference_name-IsSettled, constraints-IsSettled,
  format_annotation-IsSettled, literal-IsSettled,
}

module _ (py : Python) (again again' : Dict Node → String → Made (String × List String))
    (schemas : Dict Node) (d : Dict Node) (place : String) where
  -- The two recursive calls agree on the target of a reference that is no class, and on the items.
  abbrev pub OnTarget : Type 0
  OnTarget =
      (name : String) (node : Node) (target : Dict Node)
      → reference_name d schema_prefix place ≡ made name
      → at_key name schemas ≡ made node
      → as_mapping node ≡ made target
      → is_class target ≡ false
      → Agree (again target name) (again' target name)

  abbrev pub OnItems : Type 0
  OnItems =
      (node : Node) (element : Dict Node) (inner : String)
      → at_key "items" d ≡ made node
      → as_mapping node ≡ made element
      → Agree (again element inner) (again' element inner)

  referenced-Agree :
      OnTarget → Agree (referenced py again schemas d place) (referenced py again' schemas d place)
  unfolding referenced reference_name
  referenced-Agree h =
      Agree-bind _ _ _ _ (Agree-refl _ (reference_name-IsSettled d schema_prefix place))
        (λ name named.
          Agree-bind _ _ _ _ (Agree-refl _ (at_key-IsSettled name schemas)) (λ node held.
            Agree-bind _ _ _ _ (Agree-refl _ (as_mapping-IsSettled node)) (λ target as_target.
              elim (Bool-cases (is_class target)) [
                | inl class ↦ rw class (Agree-refl _ (unfold IsSettled in tt))
                | inr other ↦ rw other (h name node target named held as_target other)
              ])))

  given_kind-IsSettled : (annotation : String) → IsSettled (with_constraints py d place annotation)
  unfolding with_constraints
  given_kind-IsSettled annotation =
      IsSettled-bind _ _ (constraints-IsSettled py d place) (λ own. unfold IsSettled in tt)

  listed-IsSettled : (inner : String × List String) → IsSettled (listed_annotation py d place inner)
  unfolding listed_annotation
  listed-IsSettled inner = elim (Bool-cases (empty inner.1)) [
    | inl none_given ↦ rw none_given (given_kind-IsSettled (concat ("list[" ∷ inner.0 ∷ "]" ∷ [])))
    | inr given ↦ rw given (unfold IsSettled in tt)
  ]

  array-Agree :
      OnItems
      → Agree
          (array_annotation py again schemas d place)
          (array_annotation py again' schemas d place)
  unfolding array_annotation
  array-Agree h = Agree-bind _ _ _ _ (Agree-refl _ (at_key-IsSettled "items" d)) (λ node held.
      Agree-bind _ _ _ _ (Agree-refl _ (as_mapping-IsSettled node)) (λ element as_element.
        Agree-bind (again element (concat (place ∷ "[]" ∷ []))) _ _ _
          (h node element (concat (place ∷ "[]" ∷ [])) held as_element)
          (λ inner _. Agree-refl _ (listed-IsSettled inner))))

  other_kind-IsSettled : IsSettled (plain_annotation py d place)
  unfolding plain_annotation
  other_kind-IsSettled = elim (Bool-cases (reads "string" (get "type" d))) [
    | inl string ↦ rw string (
        IsSettled-bind _ _ (format_annotation-IsSettled py place (get "format" d))
          given_kind-IsSettled)
    | inr no_string ↦ elim (Bool-cases (reads "integer" (get "type" d))) [
      | inl integer ↦ rw (no_string, integer) (given_kind-IsSettled "int")
      | inr other ↦ rw (no_string, other) (unfold IsSettled in tt)
    ]
  ]

  enum-IsSettled : IsSettled (enum_annotation py d place)
  unfolding enum_annotation
  enum-IsSettled = IsSettled-bind _ _ (at_key-IsSettled "enum" d) (λ node.
      IsSettled-bind _ _ (as_sequence-IsSettled node)
        (λ values. IsSettled-bind _ _ (literal-IsSettled py values place) given_kind-IsSettled))

  typed-Agree :
      OnItems
      → Agree
          (typed_annotation py again schemas d place)
          (typed_annotation py again' schemas d place)
  unfolding typed_annotation
  typed-Agree h = elim (Bool-cases (reads "array" (get "type" d))) [
    | inl array ↦ rw array (array-Agree h)
    | inr no_array ↦ rw no_array (Agree-refl _ other_kind-IsSettled)
  ]

  pub annotate-Agree :
      OnTarget
      → OnItems
      → Agree (annotate py again schemas d place) (annotate py again' schemas d place)
  unfolding annotate
  annotate-Agree h k = elim (Bool-cases (present (get "$ref" d))) [
    | inl reference ↦ rw reference (referenced-Agree h)
    | inr none_there ↦ elim (Bool-cases (present (get "enum" d))) [
      | inl enum ↦ rw (none_there, enum) (Agree-refl _ enum-IsSettled)
      | inr no_enum ↦ rw (none_there, no_enum) (typed-Agree k)
    ]
  ]
