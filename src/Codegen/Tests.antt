-- ===== src/Codegen/Tests.antt =====
-- Runs of the generator, and the witnesses.
use Prim.Native.String.{count}
use claim_triage_agent.Common.{
  ℕ, ◌<◌, ◌≤◌, ◌≡◌, ◌≢◌, refl, sym, ◌⊎◌, inl, inr, String, false, none, List, [], ◌∷◌, ◌==◌,
  if◌then◌else◌, arith, eq_iff, All, Has, Bool-cases, string_equality,
}
use claim_triage_agent.Dict.{Dict, get, keys, sorted}
use claim_triage_agent.Codegen.{
  Node, str, items_of, mapping_or_empty, made, made_inj, stopped, too_deep, joined, at_key,
  as_mapping, traverse, flattened, concat, entries_of,
}
use claim_triage_agent.Codegen.Prose.{wrapped, breaks, text_lines, comments, wrap_words}
use claim_triage_agent.Codegen.Prose.Wrapping.{wrapped_keeps}
use claim_triage_agent.Codegen.Schemas.{
  is_enum, reference_name, set_difference, among, plain_annotation, annotation, annotate,
  typed_annotation, array_annotation, referenced, reads, is_class,
}
use claim_triage_agent.Codegen.Schemas.Terminating.{
  dict_depth, depth_of, IsRanked, Refers, directly, by_items, enough, annotation_settles,
}
use claim_triage_agent.Codegen.Models.{models_blocks, schemas_of}
use claim_triage_agent.Codegen.Models.Closed.{IsAccepted, models_closed}
use claim_triage_agent.Codegen.Operations.{operation}
use claim_triage_agent.Codegen.Operations.Kept.{HasOneSuccess, TakesParameters, operation_takes}
use claim_triage_agent.Codegen.Signatures.{Operation}
use claim_triage_agent.Codegen.Documents.{
  amount, amounts, money, to_amounts, document, declared, claims,
}
use claim_triage_agent.Codegen.Samples.{plain, plain-IsSplitting, spaced, is_space}

two_lines : wrapped plain "claims are triaged" 11 ≡ "claims are" ∷ "triaged" ∷ []
unfolding wrapped breaks wrap_words spaced is_space
two_lines = refl

wrapped_keeps_example :
    (joined " " (wrapped plain "claims are triaged" 11)
      ≡ joined " " (plain.words "claims are triaged"))
    × All
        (λ line. (count line ≤ 11) ⊎ Has line (plain.words "claims are triaged"))
        (wrapped plain "claims are triaged" 11)
wrapped_keeps_example = wrapped_keeps plain 11 "claims are triaged" plain-IsSplitting

listed_amounts : annotation plain money 9 to_amounts "here" ≡ made ("list[Decimal]", [])
unfolding annotation annotate typed_annotation array_annotation plain_annotation referenced reads
    get is_class entries_of sorted set_difference keys among concat
listed_amounts = refl

abbrev rank : String → ℕ
rank name = if name == "Amounts" then 1 else 0

same_mapping :
    (n m : Node) (t : Dict Node) → made n ≡ made m → as_mapping m ≡ made t → as_mapping n ≡ made t
same_mapping n m t h k = rw (made_inj n m h) k

amount-Refers : (t : Dict Node) (r : String) → t ≡ entries_of amount → Refers t r → ⊥
unfolding reference_name at_key get entries_of
amount-Refers t r e (directly _ name place h) = ground (arith, rw e at h)
amount-Refers t r e (by_items _ node element name h k leads) = ground (arith, rw e at h)

abbrev to_amount : Dict Node
to_amount = ("$ref", str "#/components/schemas/EurAmount") ∷ []

to_amount-Refers : (t : Dict Node) (r : String) → t ≡ to_amount → Refers t r → r ≡ "EurAmount"
unfolding reference_name at_key get
to_amount-Refers t r e (directly _ name place h) = ground (arith, rw e at h)
to_amount-Refers t r e (by_items _ node element name h k leads) = absurd (ground (arith, rw e at h))

amounts-Refers :
    (t : Dict Node) (r : String) → t ≡ entries_of amounts → Refers t r → r ≡ "EurAmount"
unfolding reference_name at_key get entries_of as_mapping
amounts-Refers t r e (directly _ name place h) = absurd (ground (arith, rw e at h))
amounts-Refers t r e (by_items _ node element name h k leads) =
    to_amount-Refers element r
      (sym (made_inj _ element (same_mapping _ node element (rw e at h) k))) leads

money-IsRanked : IsRanked money rank
unfolding IsRanked at_key get as_mapping entries_of
money-IsRanked name node target held as_target plain_one r leads =
    elim (Bool-cases ("EurAmount" == name)) [
      | inl eur ↦ absurd (
          amount-Refers target r
            (sym (
              made_inj _ target (
                same_mapping _ node target (rw (← (eq_iff "EurAmount" name).0 eur) at held)
                  as_target)))
            leads)
      | inr other ↦ elim (Bool-cases ("Amounts" == name)) [
        | inr neither ↦ absurd (ground (arith, other, neither, held))
        | inl all ↦
            rw
              (
                amounts-Refers target r
                    (sym (
                      made_inj _ target (
                        same_mapping _ node target (rw (← (eq_iff "Amounts" name).0 all) at held)
                          as_target)))
                    leads,
                sym ((eq_iff "Amounts" name).0 all),
              )
              (omega arith)
      ]
    ]

Refers-to_amounts : (t : Dict Node) (name : String) → t ≡ to_amounts → Refers t name → rank name < 2
unfolding reference_name at_key get
Refers-to_amounts t name e leads = ground arith

annotation_settles_example :
    (annotation plain money 20 to_amounts "here"
      ≡ annotation plain money (enough money to_amounts 2) to_amounts "here")
    × (annotation plain money 20 to_amounts "here" ≢ stopped too_deep)
unfolding enough dict_depth depth_of
annotation_settles_example =
    annotation_settles plain money rank 2 to_amounts "here" 20 money-IsRanked
      (λ name leads. Refers-to_amounts to_amounts name refl leads) (omega arith)

abbrev blocks : List String
blocks =
    ""
    ∷ "class Claim(BaseModel):\n    model_config = ConfigDict(extra=\"forbid\")\n\n    paid: Decimal | None = Field(default=None)"
    ∷ []

document-blocks : models_blocks plain 9 document ≡ made blocks
unfolding models_blocks get entries_of traverse is_enum sorted set_difference keys among is_class
    text_lines annotate referenced typed_annotation plain_annotation joined concat flattened
    comments
document-blocks = refl

models_closed_example :
    (schemas : Dict Node) × (schemas_of document ≡ made schemas) × All (IsAccepted plain) schemas
models_closed_example = models_closed plain 9 document blocks document-blocks

abbrev claim_operation : Operation
claim_operation = record {
  operation_id = "read_claim";
  method = "get";
  path = "/claims/{claim_id}";
  summary = "read_claim";
  description = "";
  path_parameters =
      record {
        name = "claim_id";
        location = "path";
        annotation = "str";
        required = false;
        header = "claim_id";
      }
      ∷ [];
  header_parameters =
      record {
        name = "key";
        location = "header";
        annotation = "str";
        required = false;
        header = "key";
      }
      ∷ [];
  body = none;
  body_argument = none;
  success = 200;
  returns = record {
    annotation = "Claim";
    parse = "Claim.model_validate";
    imports = "Claim" ∷ [];
    adapter = none;
  };
}

declared-operation :
    operation plain 9 claims [] [] declared "get" "/claims/{claim_id}" "here" ≡ made claim_operation
unfolding operation get traverse items_of entries_of reads annotate typed_annotation
    plain_annotation sorted set_difference keys among mapping_or_empty is_class concat
declared-operation = refl

operation_takes_example :
    HasOneSuccess plain declared 200
    × TakesParameters plain 9 claims [] declared "here" claim_operation
operation_takes_example =
    operation_takes plain 9 claims [] [] declared "get" "/claims/{claim_id}" "here" claim_operation
      (λ s. refl) declared-operation
