-- ===== src/Codegen.antt =====
-- src/claim_triage/codegen.py: the contract package, generated from the document of the contract.
-- A document is what `yaml.safe_load` returns, with text keys and a number as `str` writes it. The
-- source's annotations are taken at their word: a node of another kind stops what reads it.
pub mod Prose
pub mod Schemas
pub mod Models
pub mod Signatures
pub mod Operations
pub mod Methods
mod Samples
mod Documents
mod Tests
use Prim.Native.String.{◌++◌ as str_append}
use claim_triage_agent.Common.{
  ◌≡◌, refl, arith, ℕ, String, Bool, true, false, Option, none, some, List, [], ◌∷◌, ◌++◌,
}
use claim_triage_agent.Dict.{Dict, get}

mutual
  pub data Node : Type 0 where
    null : Node
    flag : Bool → Node
    number : String → Node
    str : String → Node
    sequence : Items → Node
    mapping : Entries → Node

  pub data Items : Type 0 where
    no_items : Items
    item : Node → Items → Items

  pub data Entries : Type 0 where
    no_entries : Entries
    entry : String → Node → Entries → Entries

unfoldable pub items_of : Items → List Node
items_of no_items = []
items_of (item node rest) = node ∷ items_of rest

-- `Mapping[str, Any]`
unfoldable pub entries_of : Entries → Dict Node
entries_of no_entries = []
entries_of (entry key node rest) = (key, node) ∷ entries_of rest

-- How the generator ends early: `UnsupportedContract` with its message, a KeyError, a node that is
-- not what the annotations say, IndexError and RecursionError.
pub data Stop : Type 0 where
  unsupported : String → Stop
  missing : String → Stop
  mistyped : Stop
  out_of_range : Stop
  too_deep : Stop

pub data Made (A : Type 0) : Type 0 where
  made : A → Made A
  stopped : Stop → Made A

infixl 5 ◌>>=◌
abbrev pub ◌>>=◌ : {A B : Type 0} → Made A → (A → Made B) → Made B
made a >>= f = f a
stopped why >>= f = stopped why

module _ {A B : Type 0} where
  -- [f(x) for x in xs]
  unfoldable pub traverse : (A → Made B) → List A → Made (List B)
  traverse f [] = made []
  traverse f (x ∷ xs) = do y ← f x; ys ← traverse f xs; made (y ∷ ys)

  -- What a `made` result was made from.
  pub made-bind :
      (m : Made A) (f : A → Made B) (b : B)
      → (m >>= f) ≡ made b
      → (a : A) × (m ≡ made a) × (f a ≡ made b)
  made-bind (made a) f b h = (a, refl, h)
  made-bind (stopped why) f b h = ground arith

  -- The same, for what follows from it.
  pub made-rule :
      {C : Type 0} (m : Made A) (f : A → Made B) (b : B)
      → (m >>= f) ≡ made b
      → ((a : A) → m ≡ made a → f a ≡ made b → C)
      → C
  made-rule (made a) f b h use_it = use_it a refl h
  made-rule (stopped why) f b h use_it = absurd (ground (arith, h))

unfoldable pub flattened : {A : Type 0} → List (List A) → List A
flattened [] = []
flattened (xs ∷ xss) = xs ++ flattened xss

pub made_inj : {A : Type 0} (a b : A) → made a ≡ made b → a ≡ b
made_inj a b h = ground (arith, h)

-- `node[key]`
unfoldable pub at_key : String → Dict Node → Made Node
at_key key d = elim (get key d) [ none ↦ stopped (missing key) | some node ↦ made node ]

unfoldable pub as_mapping : Node → Made (Dict Node)
as_mapping (mapping es) = made (entries_of es)
as_mapping _ = stopped mistyped

unfoldable pub as_sequence : Node → Made (List Node)
as_sequence (sequence xs) = made (items_of xs)
as_sequence _ = stopped mistyped

unfoldable pub as_text : Node → Made String
as_text (str s) = made s
as_text _ = stopped mistyped

-- `node.get(key, {})`
unfoldable pub mapping_or_empty : Option Node → Made (Dict Node)
unfolding as_mapping
mapping_or_empty none = made []
mapping_or_empty (some node) = as_mapping node

-- `node.get(key, [])`
unfoldable pub sequence_or_empty : Option Node → Made (List Node)
unfolding as_sequence
sequence_or_empty none = made []
sequence_or_empty (some node) = as_sequence node

-- A text or nothing, which is falsy as the empty text is.
unfoldable pub text_or_empty : Option Node → Made String
text_or_empty none = made ""
text_or_empty (some null) = made ""
text_or_empty (some (str s)) = made s
text_or_empty (some _) = stopped mistyped

-- An f-string, and `separator.join(parts)`.
unfoldable pub concat : List String → String
concat [] = ""
concat (s ∷ ss) = str_append s (concat ss)

unfoldable pub joined : String → List String → String
joined separator [] = ""
joined separator (s ∷ []) = s
joined separator (s ∷ t ∷ ts) = str_append s (str_append separator (joined separator (t ∷ ts)))

-- What the generator uses of Python's `str`, `repr`, `re` and `json`.
pub record Python : Type 0 where
  pub str_of : Node → String
  pub str_of_mapping : Dict Node → String
  pub repr_of : Node → String
  pub words : String → List String
  pub paragraphs : String → List String
  pub strip : String → String
  pub lower : String → String
  pub upper : String → String
  pub capitalize : String → String
  pub split_underscores : String → List String
  pub strip_underscores : String → String
  pub starts_with_digit : String → Bool
  pub others_to_underscore : String → String
  pub underscore_before_capitals : String → String
  pub placeholders_quoted : String → String
  pub int_of : String → Option ℕ
  pub digits : ℕ → String
  pub is_true : Node → Bool
  pub json_text : String → String
