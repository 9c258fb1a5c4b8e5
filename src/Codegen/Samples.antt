-- ===== src/Codegen/Samples.antt =====
-- A concrete Python whose words are parted by spaces.
use Prim.Native.Char.{Char, code}
use Prim.Native.String.{count, ◌++◌ as str_append}
use text.Mathlib.TextLemmas.{nil-append, cons-append, cons-ne-nil, length-cons}
use claim_triage_agent.Common.{
  ◌≡◌, refl, ap, ◌∙◌, ◌⊎◌, inl, inr, String, Bool, true, false, none, some, List, [], ◌∷◌, ◌==◌,
  if◌then◌else◌, arith, eq_iff, All, Bool-cases, nat_eq, string_equality,
}
use claim_triage_agent.Codegen.{flag, number, str, Python}
use claim_triage_agent.Codegen.Prose.Wrapping.{IsSolid, IsSplitting}

unfoldable pub is_space : Char → Bool
is_space c = nat_eq (code c) 32

-- `s` without the space that it may begin with
abbrev drop_space : String → String
drop_space String.[] = ""
drop_space (String.◌∷◌ c s) = if is_space c then s else String.◌∷◌ c s

-- The words of `s`, where `word` has been read of the first.
unfoldable pub spaced : String → String → List String
spaced word String.[] = if word == "" then [] else word ∷ []
spaced word (String.◌∷◌ c s) = elim (is_space c) [
  | true ↦ let more = spaced "" s in if word == "" then more else word ∷ more
  | false ↦ spaced (str_append word (String.◌∷◌ c "")) s
]

abbrev pub plain : Python
plain = record {
  str_of = λ node. elim node [ str s ↦ s | number s ↦ s | _ ↦ "?" ];
  str_of_mapping = λ d. "?";
  repr_of = λ node. elim node [ str s ↦ s | number s ↦ s | _ ↦ "?" ];
  words = spaced "";
  paragraphs = λ s. s ∷ [];
  strip = drop_space;
  lower = λ s. s;
  upper = λ s. s;
  capitalize = λ s. s;
  split_underscores = λ s. s ∷ [];
  strip_underscores = λ s. s;
  starts_with_digit = λ s. false;
  others_to_underscore = λ s. s;
  underscore_before_capitals = λ s. s;
  placeholders_quoted = λ s. s;
  int_of = λ s. if s == "200" then some 200 else if s == "201" then some 201 else none;
  digits = λ n. if nat_eq n 201 then "201" else "200";
  is_true = λ node. elim node [ flag b ↦ b | str s ↦ true | _ ↦ false ];
  json_text = λ s. s;
}

-- A text that begins with another character than a space.
lead-IsSolid : (c : Char) (s : String) → is_space c ≡ false → IsSolid plain (String.◌∷◌ c s)
unfolding IsSolid
lead-IsSolid c s other = (rw other refl, cons-ne-nil c s)

-- A solid text begins so.
lead_of : (c : Char) (s : String) → IsSolid plain (String.◌∷◌ c s) → is_space c ≡ false
unfolding IsSolid
lead_of c s solid = elim (Bool-cases (is_space c)) [
  | inr other ↦ other
  | inl space ↦
      let same = ap count (rw (space, drop_space) at solid.0) in
      absurd (omega (arith, same, length-cons c s))
]

IsSolid-nil : IsSolid plain "" → ⊥
unfolding IsSolid
IsSolid-nil solid = solid.1 refl

append-IsSolid : (s t : String) → IsSolid plain s → IsSolid plain (str_append s t)
append-IsSolid String.[] t solid = absurd (IsSolid-nil solid)
append-IsSolid (String.◌∷◌ c s) t solid =
    rw (cons-append c s t) (lead-IsSolid c (str_append s t) (lead_of c s solid))

solid_eq : (word : String) → IsSolid plain word → (word == "") ≡ false
unfolding IsSolid
solid_eq word solid = ground (arith, solid.1, eq_iff word "")

space_step :
    (word : String) (c : Char) (s : String)
    → is_space c ≡ true
    → spaced word (String.◌∷◌ c s) ≡ (if word == "" then spaced "" s else word ∷ spaced "" s)
unfolding spaced
space_step word c s space = cc (space)

other_step :
    (word : String) (c : Char) (s : String)
    → is_space c ≡ false
    → spaced word (String.◌∷◌ c s) ≡ spaced (str_append word (String.◌∷◌ c "")) s
unfolding spaced
other_step word c s other = cc (other)

spaced-IsSolid :
    (word s : String) → (word ≡ "") ⊎ IsSolid plain word → All (IsSolid plain) (spaced word s)
unfolding spaced
spaced-IsSolid word String.[] (inl none_yet) = rw ((eq_iff word "").1 none_yet) tt
spaced-IsSolid word String.[] (inr solid) = rw (solid_eq word solid) (solid, tt)
spaced-IsSolid word (String.◌∷◌ c s) h = elim (Bool-cases (is_space c)) [
  | inl space ↦ rw (space_step word c s space) (elim h [
    | inl none_yet ↦ rw ((eq_iff word "").1 none_yet) (spaced-IsSolid "" s (inl refl))
    | inr solid ↦ rw (solid_eq word solid) (solid, spaced-IsSolid "" s (inl refl))
  ])
  | inr other ↦ rw (other_step word c s other) (
      spaced-IsSolid (str_append word (String.◌∷◌ c "")) s (
        inr (elim h [
          | inl none_yet ↦ rw (none_yet, nil-append) (lead-IsSolid c "" other)
          | inr solid ↦ append-IsSolid word (String.◌∷◌ c "") solid
        ])))
]

drop_space-append : (w : String) → drop_space (str_append " " w) ≡ w
unfolding is_space
drop_space-append w = ap drop_space (cons-append " " "" w) ∙ nil-append w

pub plain-IsSplitting : IsSplitting plain
unfolding IsSolid
plain-IsSplitting = record {
  words = λ text. spaced-IsSolid "" text (inl refl);
  alone = λ w _. drop_space-append w;
  beside = λ c w ic _. (append-IsSolid c (str_append " " w) ic).0;
}
