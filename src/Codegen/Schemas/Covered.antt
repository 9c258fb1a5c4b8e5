-- ===== src/Codegen/Schemas/Covered.antt =====
-- The keywords of a schema that is annotated: none that the generator does not read.
use claim_triage_agent.Common.{
  All, All-of, ℕ, zero, suc, ◌≡◌, ◌⊎◌, inl, inr, ◌↔◌, String, true, false, List, [], ◌∷◌, empty,
  arith, eq_iff, Has, Bool-cases, string_equality,
}
use claim_triage_agent.Dict.{Dict, get, present, keys, sorted}
use claim_triage_agent.Dict.Laws.{sorted_iff}
use claim_triage_agent.Codegen.{
  Node, Python, made, made-bind, at_key, as_mapping, as_sequence, concat,
}
use claim_triage_agent.Codegen.Schemas.{
  among, set_difference, supported_keywords, check_supported, reads, constraints, with_constraints,
  literal, format_annotation, listed_annotation, enum_annotation, plain_annotation,
  array_annotation, typed_annotation, annotate, annotation,
}

-- Every keyword of the schema is one that the generator reads.
unfoldable pub IsRead : Dict Node → Type 0
IsRead schema = All (λ key. Has key supported_keywords) (keys schema)

-- What an annotation has looked at: a reference, and nothing beside it, or a schema that is read, with
-- its items.
pub data IsCovered : Dict Node → Type 0 where
  by_reference : (d : Dict Node) → present (get "$ref" d) ≡ true → IsCovered d
  by_itself :
      (d : Dict Node)
      → IsRead d
      → (present (get "enum" d) ≡ true) ⊎ (reads "array" (get "type" d) ≡ false)
      → IsCovered d
  with_items :
      (d : Dict Node) (node : Node) (element : Dict Node)
      → IsRead d
      → at_key "items" d ≡ made node
      → as_mapping node ≡ made element
      → IsCovered element
      → IsCovered d

among_iff : (name : String) (names : List String) → (among name names ≡ true) ↔ Has name names
unfolding among
among_iff name [] = ground arith
among_iff name (n ∷ names) = ground (arith, among_iff name names, eq_iff n name)

set_difference_iff :
    (key : String) (others names : List String)
    → Has key (set_difference others names) ↔ (Has key names × (among key others ≡ false))
unfolding set_difference
set_difference_iff key others [] = ground arith
set_difference_iff key others (n ∷ names) = elim (Bool-cases (among n others)) [
  | inl held ↦ ground (arith, held, set_difference_iff key others names)
  | inr free ↦ ground (arith, free, set_difference_iff key others names)
]

none_in : (key : String) (names : List String) → empty names ≡ true → Has key names → ⊥
none_in key [] h held = held
none_in key (n ∷ names) h held = ground (arith, h)

pub check_supported-IsRead :
    (d : Dict Node) (place : String) → check_supported d place ≡ made tt → IsRead d
unfolding check_supported IsRead
check_supported-IsRead d place h = All-of (keys d) (λ key held.
    let unread = set_difference supported_keywords (keys d) in
    elim (Bool-cases (among key supported_keywords)) [
      | inl known ↦ (among_iff key supported_keywords).0 known
      | inr unknown ↦ ground (
        arith,
        h,
        Bool-cases (empty (sorted unread)),
        none_in key (sorted unread),
        sorted_iff key unread,
        set_difference_iff key supported_keywords (keys d),
        held,
        unknown,
      )
    ])

module _ (py : Python) (d : Dict Node) (place : String) where
  with_constraints-IsRead :
      (annotation : String) (a : String × List String)
      → with_constraints py d place annotation ≡ made a
      → IsRead d
  unfolding with_constraints constraints
  with_constraints-IsRead named a h =
      let b = made-bind (constraints py d place) _ a h in
      let c = made-bind (check_supported d place) _ b.0 b.1 in check_supported-IsRead d place c.1

  enum-IsRead : (a : String × List String) → enum_annotation py d place ≡ made a → IsRead d
  unfolding enum_annotation
  enum-IsRead a h =
      let b = made-bind (at_key "enum" d) _ a h in
      let c = made-bind (as_sequence b.0) _ a b.2 in
      let e = made-bind (literal py c.0 place) _ a c.2 in with_constraints-IsRead e.0 a e.2

  plain-IsRead : (a : String × List String) → plain_annotation py d place ≡ made a → IsRead d
  unfolding plain_annotation
  plain-IsRead a h = elim (Bool-cases (reads "string" (get "type" d))) [
    | inl string ↦
        let b = made-bind (format_annotation py place (get "format" d)) _ a (rw string at h) in
        with_constraints-IsRead b.0 a b.2
    | inr no_string ↦ elim (Bool-cases (reads "integer" (get "type" d))) [
      | inl integer ↦ with_constraints-IsRead "int" a (rw (no_string, integer) at h)
      | inr other ↦ absurd (ground (arith, rw (no_string, other) at h))
    ]
  ]

  listed-IsRead :
      (inner a : String × List String) → listed_annotation py d place inner ≡ made a → IsRead d
  unfolding listed_annotation
  listed-IsRead inner a h = elim (Bool-cases (empty inner.1)) [
    | inl unconstrained ↦
        with_constraints-IsRead (concat ("list[" ∷ inner.0 ∷ "]" ∷ [])) a (rw unconstrained at h)
    | inr constrained ↦ absurd (ground (arith, rw constrained at h))
  ]

module _ (py : Python) (schemas : Dict Node) where
  pub annotation-IsCovered :
      (depth : ℕ) (d : Dict Node) (place : String) (a : String × List String)
      → annotation py schemas depth d place ≡ made a
      → IsCovered d
  unfolding annotation annotate typed_annotation array_annotation
  annotation-IsCovered zero d place a h = absurd (ground (arith, h))
  annotation-IsCovered (suc n) d place a h = elim (Bool-cases (present (get "$ref" d))) [
    | inl reference ↦ by_reference d reference
    | inr no_reference ↦ elim (Bool-cases (present (get "enum" d))) [
      | inl enum ↦ by_itself d (enum-IsRead py d place a (rw (no_reference, enum) at h)) (inl enum)
      | inr no_enum ↦ elim (Bool-cases (reads "array" (get "type" d))) [
        | inr no_array ↦
            by_itself d (plain-IsRead py d place a (rw (no_reference, no_enum, no_array) at h))
              (inr no_array)
        | inl array ↦
            let (node, held, rest) =
              made-bind (at_key "items" d) _ a (rw (no_reference, no_enum, array) at h) in
            let (element, as_element, later) = made-bind (as_mapping node) _ a rest in
            let (inner, made_inner, last) =
              made-bind (annotation py schemas n element (concat (place ∷ "[]" ∷ []))) _ a later in
            with_items d node element (listed-IsRead py d place inner a last) held as_element
              (annotation-IsCovered n element (concat (place ∷ "[]" ∷ [])) inner made_inner)
      ]
    ]
  ]
