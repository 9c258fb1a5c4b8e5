-- ===== src/Codegen/Prose.antt =====
-- src/claim_triage/codegen.py: the docstrings and comments of the generated code, wrapped.
pub mod Wrapping
use Prim.Native.String.{count, ◌++◌ as str_append}
use claim_triage_agent.Common.{
  ℕ, ◌-◌, String, List, [], ◌∷◌, ◌++◌, Bool, true, false, map, not, ltb, ◌&&◌, ◌==◌, if◌then◌else◌,
  string_equality,
}
use claim_triage_agent.Codegen.{Python, Made, made, stopped, out_of_range, concat}

-- `WIDTH`
abbrev pub width_limit : ℕ
width_limit = 92

abbrev pub quotes : String
quotes = "\"\"\""

-- How one more word on the line reads.
abbrev pub candidate : Python → String → String → String
candidate py current word = py.strip (str_append current (str_append " " word))

unfoldable pub breaks : Python → ℕ → String → String → Bool
breaks py width current word = not (current == "") && ltb width (count (candidate py current word))

module _ (py : Python) (width : ℕ) where
  -- The loop of `_wrapped`, from the line so far and the words to come.
  unfoldable pub wrap_words : String → List String → List String
  wrap_words current [] = if current == "" then [] else current ∷ []
  wrap_words current (word ∷ words) = elim (breaks py width current word) [
    | true ↦ current ∷ wrap_words word words
    | false ↦ wrap_words (candidate py current word) words
  ]

unfoldable pub wrapped : Python → String → ℕ → List String
unfolding wrap_words
wrapped py text width = wrap_words py width "" (py.words text)

-- `_comments`
unfoldable pub comments : Python → String → String → List String
comments py text indent =
    if text == ""
    then []
    else map (λ line. concat (indent ∷ "# " ∷ line ∷ []))
        (wrapped py text (width_limit - count indent))

unfoldable pub indented : String → List String → List String
indented indent lines = map (str_append indent) lines

-- Each further paragraph, behind an empty line.
unfoldable pub further : String → List (List String) → List String
further indent [] = []
further indent (lines ∷ paragraphs) = "" ∷ indented indent lines ++ further indent paragraphs

-- The docstring of the wrapped paragraphs.
unfoldable pub docstring : String → List (List String) → Made (List String)
docstring indent [] = stopped out_of_range
docstring indent ([] ∷ paragraphs) = stopped out_of_range
docstring indent ((line ∷ []) ∷ []) = made (concat (indent ∷ quotes ∷ line ∷ quotes ∷ []) ∷ [])
docstring indent ((line ∷ lines) ∷ paragraphs) = made (
    concat (indent ∷ quotes ∷ line ∷ []) ∷ indented indent lines
    ++ further indent paragraphs
    ++ concat (indent ∷ quotes ∷ []) ∷ [])

-- [_wrapped(paragraph) for paragraph in paragraphs if paragraph.strip()]
unfoldable pub wrapped_paragraphs : Python → ℕ → List String → List (List String)
wrapped_paragraphs py width [] = []
wrapped_paragraphs py width (p ∷ ps) =
    let rest = wrapped_paragraphs py width ps in
    if py.strip p == "" then rest else wrapped py p width ∷ rest

-- `_text`
unfoldable pub text_lines : Python → String → String → Made (List String)
text_lines py text indent =
    if text == ""
    then made []
    else docstring indent
        (wrapped_paragraphs py (width_limit - count indent - count quotes) (py.paragraphs text))
