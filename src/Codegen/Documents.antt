-- ===== src/Codegen/Documents.antt =====
-- Documents to run the generator on.
use claim_triage_agent.Common.{String, false, [], ◌∷◌}
use claim_triage_agent.Dict.{Dict}
use claim_triage_agent.Codegen.{
  Node, null, flag, str, sequence, mapping, no_items, item, Entries, no_entries, entry,
}

abbrev reference_to : String → Entries
reference_to name = entry "$ref" (str name) no_entries

abbrev pub amount : Entries
amount = entry "type" (str "string") (entry "format" (str "decimal") no_entries)

abbrev pub amounts : Entries
amounts =
    entry "type" (str "array")
      (entry "items" (mapping (reference_to "#/components/schemas/EurAmount")) no_entries)

abbrev pub money : Dict Node
money = ("EurAmount", mapping amount) ∷ ("Amounts", mapping amounts) ∷ []

abbrev pub to_amounts : Dict Node
to_amounts = ("$ref", str "#/components/schemas/Amounts") ∷ []

-- An object schema whose field is an amount, and the document that declares it.
abbrev claim : Entries
claim = entry "type" (str "object") (
    entry "additionalProperties" (flag false) (
      entry "properties"
        (mapping
          (entry "paid" (mapping (reference_to "#/components/schemas/EurAmount")) no_entries))
        no_entries))

abbrev pub document : Dict Node
document =
    (
      "components",
      mapping (
          entry "schemas"
            (mapping
              (entry "EurAmount" (mapping amount) (entry "Claim" (mapping claim) no_entries)))
            no_entries),
    )
    ∷ []

-- An operation on one claim, whose key is taken from a header.
abbrev parameter_in : String → String → Entries
parameter_in location name = entry "in" (str location) (
    entry "name" (str name)
      (entry "schema" (mapping (entry "type" (str "string") no_entries)) no_entries))

abbrev pub declared : Dict Node
declared =
    ("operationId", str "read_claim")
    ∷ (
      "parameters",
      sequence (
          item (mapping (parameter_in "path" "claim_id"))
            (item (mapping (parameter_in "header" "key")) no_items)),
    )
    ∷ (
      "responses",
      mapping (
          entry "200"
            (mapping (
              entry "content"
                (mapping (
                  entry "application/json"
                    (mapping (
                      entry "schema" (mapping (reference_to "#/components/schemas/Claim"))
                        no_entries))
                    no_entries))
                no_entries))
            (entry "404" null no_entries)),
    )
    ∷ []

abbrev pub claims : Dict Node
claims = ("Claim", mapping claim) ∷ []
