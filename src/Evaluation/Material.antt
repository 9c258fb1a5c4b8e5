-- ===== src/Evaluation/Material.antt =====
-- src/claim_triage/evaluation/material.py: the files of a run, and how they are refused. A file's text
-- is missing where it is not UTF-8 or cannot be read; a directory of files has no directory in it.
pub mod Chains
pub mod Repeats
use Prim.Native.String.{len, slice, ◌++◌ as str_append}
use claim_triage_agent.Common.{
  ℕ, ◌+◌, ◌-◌, Bool, true, false, String, Option, none, some, List, [], ◌∷◌, not, ◌==◌, ◌&&◌, ◌||◌,
  leb, string_equality, if◌then◌else◌,
}
use claim_triage_agent.Dict.{sorted}
use claim_triage_agent.Evaluation.Measurements.{Capability, value_of}

pub record FilePath : Type 0 where
  pub directory : String
  pub name : String

abbrev pub same_file : FilePath → FilePath → Bool
same_file p q = p.directory == q.directory && p.name == q.name

-- The files, each with its text.
pub record File : Type 0 where
  pub path : FilePath
  pub text : Option String

abbrev pub Disk : Type 0
Disk = List File

-- `Unreadable`, with what each message shows.
pub data Unreadable : Type 0 where
  not_text : FilePath → Unreadable
  not_json : FilePath → ℕ → Unreadable
  unfit : FilePath → ℕ → Unreadable
  no_document : FilePath → Unreadable
  stray_file : FilePath → Unreadable
  named_twice : FilePath → String → Unreadable
  lacks_sets : String → List String → Unreadable
  no_header : FilePath → Unreadable
  other_capability : FilePath → ℕ → Capability → Unreadable
  answers_nothing : FilePath → Capability → Unreadable
  no_answers : FilePath → Capability → ℕ → Unreadable
  unheld_case : FilePath → ℕ → String → Capability → Unreadable
  nothing_recorded : String → FilePath → Unreadable
  other_tag : FilePath → String → String → Unreadable
  not_installed : Unreadable

-- What a reader comes to: its value, or the `Unreadable` that it raises.
pub data Read (A : Type 0) : Type 0 where
  found : A → Read A
  unreadable : Unreadable → Read A

infixl 5 ◌>>=◌
abbrev pub ◌>>=◌ : {A B : Type 0} → Read A → (A → Read B) → Read B
found a >>= f = f a
unreadable why >>= f = unreadable why

-- Python's `str.splitlines`, `str.strip` and `json.loads`: none is JSONDecodeError, the one exception
-- that is caught; a line that is nested past the recursion limit is not modelled.
pub record Parsing (J : Type 0) : Type 0 where
  pub split_lines : String → List String
  pub strip : String → String
  pub loads : String → Option J

unfoldable pub find_file : FilePath → Disk → Option (Option String)
find_file path [] = none
find_file path (file ∷ disk) =
    let rest = find_file path disk in if same_file file.path path then some file.text else rest

-- `path.is_file()`
unfoldable pub is_file : FilePath → Disk → Bool
unfolding find_file
is_file path disk = elim (find_file path disk) [ none ↦ false | some _ ↦ true ]

-- `_text`
unfoldable pub text_of : FilePath → Disk → Read String
unfolding find_file
text_of path disk = elim (find_file path disk) [
  | some (some text) ↦ found text
  | _ ↦ unreadable (not_text path)
]

-- `SET_FILES[capability]`
abbrev pub set_file : Capability → String
set_file capability = str_append (value_of capability) ".jsonl"

abbrev pub is_set_file : String → Bool
is_set_file name =
    name == set_file Capability.extraction
    || name == set_file Capability.retrieval
    || name == set_file Capability.classification

abbrev pub ends_with : String → String → Bool
ends_with suffix name =
    leb (len suffix) (len name) && slice name (len name - len suffix) (len name) == suffix

-- The names that `directory.glob("*.jsonl")` finds.
unfoldable pub names_in : String → Disk → List String
names_in directory [] = []
names_in directory (file ∷ disk) =
    let rest = names_in directory disk in
    if file.path.directory == directory && ends_with ".jsonl" file.path.name
    then file.path.name ∷ rest
    else rest

unfoldable pub first_stray : String → List String → Read (Unit {0})
first_stray directory [] = found tt
first_stray directory (name ∷ names) =
    let rest = first_stray directory names in
    if is_set_file name
    then rest
    else unreadable (stray_file (record { directory = directory; name = name }))

-- `only_known`
unfoldable pub only_known : String → Disk → Read (Unit {0})
unfolding first_stray names_in sorted
only_known directory disk = first_stray directory (sorted (names_in directory disk))

-- `value in values`
unfoldable pub is_in : String → List String → Bool
is_in id [] = false
is_in id (other ∷ ids) = id == other || is_in id ids

-- `refuse_repeats`, of the identifiers of the cases, with those seen so far.
unfoldable pub refuse_repeats : FilePath → List String → List String → Read (Unit {0})
unfolding is_in
refuse_repeats path seen [] = found tt
refuse_repeats path seen (id ∷ ids) =
    let rest = refuse_repeats path (id ∷ seen) ids in
    if is_in id seen then unreadable (named_twice path id) else rest

module _ {J : Type 0} (parsing : Parsing J) where
  open parsing use {split_lines, strip, loads}

  unfoldable pub numbered : ℕ → List String → List (String × ℕ)
  numbered number [] = []
  numbered number (line ∷ later) =
      let rest = numbered (number + 1) later in
      if strip line == "" then rest else (strip line, number) ∷ rest

  -- `lines`
  unfoldable pub lines : FilePath → Disk → Read (List (String × ℕ))
  unfolding text_of numbered
  lines path disk = text_of path disk >>= λ text. found (numbered 1 (split_lines text))

  -- `validated`, of the value on one line
  unfoldable pub validated : {A : Type 0} → (J → Option A) → J → FilePath → ℕ → Read A
  validated validate value path number = elim (validate value) [
    | some a ↦ found a
    | none ↦ unreadable (unfit path number)
  ]

  -- `parsed`
  unfoldable pub parsed : {A : Type 0} → (J → Option A) → FilePath → String × ℕ → Read A
  unfolding validated
  parsed validate path (line, number) = elim (loads line) [
    | none ↦ unreadable (not_json path number)
    | some value ↦ validated validate value path number
  ]

-- `document`, validated by the model's own `model_validate_json`
unfoldable pub document : {A : Type 0} → (String → Option A) → FilePath → Disk → Read A
unfolding text_of
document validate path disk = text_of path disk >>= λ text. elim (validate text) [
  | some a ↦ found a
  | none ↦ unreadable (no_document path)
]
