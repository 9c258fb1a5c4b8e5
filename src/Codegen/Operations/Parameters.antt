-- ===== src/Codegen/Operations/Parameters.antt =====
-- The parameters of an operation, by where they are taken from.
use mathlib.Core.Path.{subst}
use claim_triage_agent.Common.{
  ℕ, zero, suc, ◌≡◌, refl, sym, ap, ◌⊎◌, inl, inr, ◌↔◌, String, some, Bool, true, false, List, [],
  ◌∷◌, ◌==◌, ◌||◌, if◌then◌else◌, arith, All, Has, eq_iff, Bool-cases, Option-cases,
  string_equality,
}
use claim_triage_agent.Dict.{Dict, get, present}
use claim_triage_agent.Codegen.{
  Node, str, Python, Made, made, made-bind, made_inj, traverse, at_key, as_mapping,
  sequence_or_empty,
}
use claim_triage_agent.Codegen.Schemas.{refuse, reads, reference_name, annotation}
use claim_triage_agent.Codegen.Signatures.{Parameter, located, parameter_prefix}
use claim_triage_agent.Codegen.Operations.{inline_parameter, parameter, declared_parameters}

-- A parameter that is taken from the path or from a header.
unfoldable pub IsPlaced : Parameter → Type 0
IsPlaced p = (p.location ≡ "path") ⊎ (p.location ≡ "header")

reads-eq : (s : String) (node : Node) → reads s (some node) ≡ true → node ≡ str s
unfolding reads
reads-eq s (str t) h = ap str ((eq_iff t s).0 h)
reads-eq s _ h = ground (arith, h)

same_location : (p q : Parameter) → p ≡ q → p.location ≡ q.location
same_location p q e = ap (λ (r : Parameter). r.location) e

pub located_iff :
    (p : Parameter) (location : String) (all : List Parameter)
    → Has p (located location all) ↔ (Has p all × (p.location ≡ location))
unfolding located
located_iff p location [] = ground arith
located_iff p location (q ∷ all) = elim (Bool-cases (q.location == location)) [
  | inl same ↦
      ground
        (arith, located_iff p location all, same, eq_iff q.location location, same_location p q)
  | inr other ↦
      ground
        (arith, located_iff p location all, other, eq_iff q.location location, same_location p q)
]

All-Has : {A : Type 0} (P : A → Type 0) (x : A) (xs : List A) → All P xs → Has x xs → P x
All-Has P x [] h held = absurd held
All-Has P x (y ∷ ys) h (inl e) = subst (λ z. P z) (sym e) h.0
All-Has P x (y ∷ ys) h (inr later) = All-Has P x ys h.1 later

-- Parameters from the path or a header are all among those of the two places.
pub located-All :
    (p : Parameter) (all : List Parameter)
    → All IsPlaced all
    → Has p all ↔ (Has p (located "path" all) ⊎ Has p (located "header" all))
unfolding IsPlaced
located-All p all h = (
  (λ held. elim (All-Has IsPlaced p all h held) [
    | inl path ↦ inl ((located_iff p "path" all).1 (held, path))
    | inr header ↦ inr ((located_iff p "header" all).1 (held, header))
  ]),
  λ found. ground (arith, found, located_iff p "path" all, located_iff p "header" all),
)

then_made :
    {A : Type 0} (b : Bool) (x : Made A) (place : String) (what : List String) (a : A)
    → (if b then x else refuse place what) ≡ made a
    → (b ≡ true) × (x ≡ made a)
then_made true x place what a h = (refl, h)
then_made false x place what a h = absurd (ground (arith, h))

All-traverse :
    {A B : Type 0} (P : B → Type 0) (f : A → Made B) (xs : List A) (ys : List B)
    → ((x : A) (y : B) → f x ≡ made y → P y)
    → traverse f xs ≡ made ys
    → All P ys
unfolding traverse
All-traverse P f [] ys step h = subst (λ zs. All P zs) (made_inj [] ys h) tt
All-traverse P f (x ∷ xs) ys step h =
    let (y, made_y, rest) = made-bind (f x) _ ys h in
    let (zs, made_zs, last) = made-bind (traverse f xs) _ ys rest in
    subst (λ l. All P l) (made_inj (y ∷ zs) ys last)
      (step x y made_y, All-traverse P f xs zs step made_zs)

module _ (py : Python) (texts : (s : String) → py.str_of (str s) ≡ s) (depth : ℕ)
    (schemas parameters : Dict Node) where
  placed_text :
      (location : Node)
      → (reads "path" (some location) || reads "header" (some location)) ≡ true
      → (py.str_of location ≡ "path") ⊎ (py.str_of location ≡ "header")
  placed_text location h = elim (Bool-cases (reads "path" (some location))) [
    | inl path ↦ inl (rw (reads-eq "path" location path) (texts "path"))
    | inr other ↦ inr (rw (reads-eq "header" location (ground (arith, h, other))) (texts "header"))
  ]

  inline-IsPlaced :
      (node : Dict Node) (place : String) (p : Parameter)
      → inline_parameter py depth schemas parameters node place ≡ made p
      → IsPlaced p
  unfolding inline_parameter IsPlaced
  inline-IsPlaced node place p h =
      let (location, _, rest) = made-bind (at_key "in" node) _ p h in
      let (held, rest) =
        then_made (reads "path" (some location) || reads "header" (some location)) _ place _ p
          rest in
      let (schema, _, rest) = made-bind (at_key "schema" node) _ p rest in
      let (name, _, rest) = made-bind (at_key "name" node) _ p rest in
      let (inner, _, rest) = made-bind (as_mapping schema) _ p rest in
      let (annotated, _, rest) = made-bind (annotation py schemas depth inner _) _ p rest in
      rw (sym (ap (λ (r : Parameter). r.location) (made_inj _ p rest))) (placed_text location held)

  parameter-IsPlaced :
      (left : ℕ) (place : String) (node : Dict Node) (p : Parameter)
      → parameter py depth schemas parameters left place node ≡ made p
      → IsPlaced p
  unfolding parameter
  parameter-IsPlaced zero place node p h = absurd (ground (arith, h))
  parameter-IsPlaced (suc left) place node p h = elim (Bool-cases (present (get "$ref" node))) [
    | inr inline ↦ inline-IsPlaced node place p (rw (inline, parameter) at h)
    | inl reference ↦
        let (name, _, rest) =
          made-bind (reference_name node parameter_prefix place) _ p
            (rw (reference, parameter) at h) in
        elim (Option-cases (get name parameters)) [
          | inl none_there ↦ absurd (ground (arith, rw none_there at rest))
          | inr (target, there) ↦
              let (inner, _, last) = made-bind (as_mapping target) _ p (rw there at rest) in
              parameter-IsPlaced left place inner p last
        ]
  ]

  pub declared-IsPlaced :
      (declared : Dict Node) (place : String) (all : List Parameter)
      → declared_parameters py depth schemas parameters declared place ≡ made all
      → All IsPlaced all
  unfolding declared_parameters
  declared-IsPlaced declared place all h =
      let (nodes, _, rest) = made-bind (sequence_or_empty (get "parameters" declared)) _ all h in
      All-traverse IsPlaced _ nodes all
        (λ node p made_p.
          let (inner, _, last) = made-bind (as_mapping node) _ p made_p in
          parameter-IsPlaced depth place inner p last)
        rest
