-- ===== src/Codegen/Operations/Kept.antt =====
-- What an operation keeps of its declaration: the parameters, and the one status of success.
use claim_triage_agent.Common.{
  ℕ, ◌≡◌, refl, sym, ◌⊎◌, ◌↔◌, String, some, List, [], ◌∷◌, arith, Has, Option-cases,
  string_equality,
}
use claim_triage_agent.Dict.{Dict, get, keys}
use claim_triage_agent.Codegen.{
  Node, str, Python, made, made-rule, made_inj, traverse, at_key, as_mapping, text_or_empty,
}
use claim_triage_agent.Codegen.Models.Closed.{guard_held}
use claim_triage_agent.Codegen.Signatures.{
  Parameter, Operation, located, success_keys, success_status, only_status, to_int, is_set,
  body_schema, resolved_response, response_schema, returns_of,
}
use claim_triage_agent.Codegen.Operations.Parameters.{located_iff, located-All, declared-IsPlaced}
use claim_triage_agent.Codegen.Operations.{declared_parameters, operation, answered_operation}

-- The one status that the declared responses name as a success, as a number.
unfoldable pub HasOneSuccess : Python → Dict Node → ℕ → Type 0
HasOneSuccess py declared success =
    (node : Node) × (answers : Dict Node) × (status : String) × (at_key "responses" declared
      ≡ made node)
    × (as_mapping node ≡ made answers)
    × (success_keys (keys answers) ≡ status ∷ [])
    × (py.int_of status ≡ some success)

-- The operation takes the declared parameters: those of the path from the path, those of a header
-- from a header, and no other.
unfoldable pub TakesParameters :
    Python → ℕ → Dict Node → Dict Node → Dict Node → String → Operation → Type 0
TakesParameters py depth schemas parameters declared place op =
    (all : List Parameter) × (declared_parameters py depth schemas parameters declared place
      ≡ made all)
    × ((p : Parameter) → Has p all ↔ (Has p op.path_parameters ⊎ Has p op.header_parameters))
    × ((p : Parameter) → Has p op.path_parameters ↔ (Has p all × (p.location ≡ "path")))
    × ((p : Parameter) → Has p op.header_parameters ↔ (Has p all × (p.location ≡ "header")))

module _ (py : Python) where
  to_int-some : (status : String) (n : ℕ) → to_int py status ≡ made n → py.int_of status ≡ some n
  to_int-some status n h = ground (arith, h, Option-cases (py.int_of status))

  one_status :
      (place : String) (names : List String) (ns : List ℕ) (n : ℕ)
      → traverse (to_int py) names ≡ made ns
      → only_status place ns ≡ made n
      → (status : String) × (names ≡ status ∷ []) × (py.int_of status ≡ some n)
  unfolding traverse
  one_status place [] [] n h k = absurd (ground (arith, k))
  one_status place [] (m ∷ ns) n h k = absurd (ground (arith, h))
  one_status place (s ∷ names) ns n h k = made-rule (to_int py s) _ ns h (λ m is_m rest.
      made-rule (traverse (to_int py) names) _ ns rest
        (λ ms are_ms last. alone s names m ms is_m are_ms (rw (← made_inj (m ∷ ms) ns last) at k)))
    where
      alone :
          (s : String) (names : List String) (m : ℕ) (ms : List ℕ)
          → to_int py s ≡ made m
          → traverse (to_int py) names ≡ made ms
          → only_status place (m ∷ ms) ≡ made n
          → (status : String) × (s ∷ names ≡ status ∷ []) × (py.int_of status ≡ some n)
      alone s [] m [] is_m are_ms k = (s, refl, to_int-some s n (ground (arith, is_m, k)))
      alone s [] m (o ∷ ms) is_m are_ms k = absurd (ground (arith, k))
      alone s (t ∷ names) m [] is_m are_ms k = made-rule (to_int py t) _ [] are_ms (λ y _ rest.
          made-rule (traverse (to_int py) names) _ [] rest
            (λ ys _ last. absurd (ground (arith, last))))
      alone s (t ∷ names) m (o ∷ ms) is_m are_ms k = absurd (ground (arith, k))

  one_success :
      (declared : Dict Node) (node : Node) (answers : Dict Node) (success : ℕ) (place : String)
      → at_key "responses" declared ≡ made node
      → as_mapping node ≡ made answers
      → success_status py answers place ≡ made success
      → HasOneSuccess py declared success
  unfolding HasOneSuccess success_status
  one_success declared node answers success place held as_answers one =
      made-rule (traverse (to_int py) (success_keys (keys answers))) _ success one
        (λ ns are_ns last.
          let (status, only, number) = one_status place _ ns success are_ns last in
          (node, answers, status, held, as_answers, only, number))

  answered-keeps :
      (depth : ℕ) (schemas parameters responses declared : Dict Node) (method path place : String)
      (id : Node) (all : List Parameter) (answers : Dict Node) (success : ℕ) (op : Operation)
      → answered_operation py depth schemas parameters responses declared method path place id all
          answers success
        ≡ made op
      → (op.path_parameters ≡ located "path" all)
        × (op.header_parameters ≡ located "header" all)
        × (op.success ≡ success)
  unfolding answered_operation
  answered-keeps depth schemas parameters responses declared method path place id all answers
        success op h =
      made-rule (body_schema py schemas declared place) _ op h (λ body _ rest.
        made-rule (at_key (py.digits success) answers) _ op rest (λ inner _ rest.
          made-rule (as_mapping inner) _ op rest (λ answer _ rest.
            made-rule (resolved_response answer responses place) _ op rest (λ response _ rest.
              made-rule (response_schema response _) _ op rest (λ schema _ rest.
                made-rule (text_or_empty (get "description" declared)) _ op rest (λ told _ rest.
                  made-rule (returns_of py schemas schema _) _ op rest
                    (λ returns _ last. rw (sym (made_inj _ op last)) (refl, refl, refl))))))))

  -- An operation that is generated takes every parameter that its declaration resolves to, from the
  -- path exactly if it is declared in the path and from a header exactly if it is declared in a
  -- header, and no other; it expects the one status of success that is declared. The hypothesis is
  -- that `str` leaves a text as it is.
  pub operation_takes :
      (depth : ℕ) (schemas parameters responses declared : Dict Node) (method path place : String)
      (op : Operation)
      → ((s : String) → py.str_of (str s) ≡ s)
      → operation py depth schemas parameters responses declared method path place ≡ made op
      → HasOneSuccess py declared op.success
        × TakesParameters py depth schemas parameters declared place op
  unfolding operation TakesParameters
  operation_takes depth schemas parameters responses declared method path place op texts h =
      let (_, rest) = guard_held (is_set py (get "operationId" declared)) place _ _ op h in
      made-rule (at_key "operationId" declared) _ op rest (λ id _ rest.
        made-rule (declared_parameters py depth schemas parameters declared place) _ op rest
          (λ all are_all rest. made-rule (at_key "responses" declared) _ op rest (λ node held rest.
            made-rule (as_mapping node) _ op rest (λ answers as_answers rest.
              made-rule (success_status py answers place) _ op rest (λ success one last.
                let (paths, headers, status) =
                  answered-keeps depth schemas parameters responses declared method path place id
                    all answers success op last in
                rw (paths, headers, status)
                  (
                    one_success declared node answers success place held as_answers one,
                    (
                      all,
                      are_all,
                      (λ p. located-All p all (
                          declared-IsPlaced py texts depth schemas parameters declared place all
                            are_all)),
                      (λ p. located_iff p "path" all),
                      (λ p. located_iff p "header" all),
                    ),
                  ))))))
