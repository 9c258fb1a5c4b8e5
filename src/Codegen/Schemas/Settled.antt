-- ===== src/Codegen/Schemas/Settled.antt =====
-- The recursion of an annotation: what it comes to does not depend on the depth that Python allows,
-- once that depth is enough.
use text.Mathlib.Text.{starts_with}
use claim_triage_agent.Common.{
  ◌≡◌, refl, sym, String, Option, none, some, List, [], ◌∷◌, empty, arith, Bool-cases, Option-cases,
  string_equality,
}
use claim_triage_agent.Dict.{Dict, get, keys, sorted}
use claim_triage_agent.Codegen.{
  Node, str, sequence, mapping, Python, Made, made, stopped, unsupported, missing, mistyped,
  out_of_range, too_deep, ◌>>=◌, traverse, at_key, as_mapping, as_sequence,
}
use claim_triage_agent.Codegen.Schemas.{
  check_supported, supported_keywords, set_difference, formats, reference_name, name_behind,
  constraints, literal, literal_value, format_annotation,
}

unfoldable pub IsSettled : {A : Type 0} → Made A → Type 0
IsSettled (made a) = Unit
IsSettled (stopped (unsupported s)) = Unit
IsSettled (stopped (missing s)) = Unit
IsSettled (stopped mistyped) = Unit
IsSettled (stopped out_of_range) = Unit
IsSettled (stopped too_deep) = ⊥

-- Both come to the same, which is not a RecursionError.
unfoldable pub Agree : {A : Type 0} → Made A → Made A → Type 0
Agree m n = (m ≡ n) × IsSettled m

pub Agree-refl : {A : Type 0} (m : Made A) → IsSettled m → Agree m m
unfolding Agree
Agree-refl m h = (refl, h)

pub Agree-bind :
    {A B : Type 0} (m n : Made A) (f g : A → Made B)
    → Agree m n
    → ((a : A) → m ≡ made a → Agree (f a) (g a))
    → Agree (m >>= f) (n >>= g)
unfolding Agree IsSettled
Agree-bind (made a) n f g h k = rw (sym h.0) (k a refl)
Agree-bind (stopped why) n f g h k = rw (sym h.0) (refl, h.1)

pub IsSettled-bind :
    {A B : Type 0} (m : Made A) (f : A → Made B)
    → IsSettled m
    → ((a : A) → IsSettled (f a))
    → IsSettled (m >>= f)
unfolding IsSettled
IsSettled-bind (made a) f h k = k a
IsSettled-bind (stopped why) f h k = h

IsSettled-traverse :
    {A B : Type 0} (f : A → Made B)
    → ((a : A) → IsSettled (f a))
    → (xs : List A) → IsSettled (traverse f xs)
unfolding traverse IsSettled
IsSettled-traverse f h [] = tt
IsSettled-traverse f h (x ∷ xs) =
    IsSettled-bind _ _ (h x)
      (λ y. IsSettled-bind _ (λ ys. made (y ∷ ys)) (IsSettled-traverse f h xs) (λ ys. tt))

pub at_key-IsSettled : (key : String) (d : Dict Node) → IsSettled (at_key key d)
unfolding at_key IsSettled
at_key-IsSettled key d = ground (arith, Option-cases (get key d))

pub as_mapping-IsSettled : (node : Node) → IsSettled (as_mapping node)
unfolding as_mapping IsSettled
as_mapping-IsSettled (mapping es) = tt
as_mapping-IsSettled _ = tt

pub as_sequence-IsSettled : (node : Node) → IsSettled (as_sequence node)
unfolding as_sequence IsSettled
as_sequence-IsSettled (sequence xs) = tt
as_sequence-IsSettled _ = tt

pub name_behind-IsSettled :
    (prefix place : String) (node : Node) → IsSettled (name_behind prefix place node)
unfolding name_behind IsSettled
name_behind-IsSettled prefix place (str reference) =
    ground (arith, Bool-cases (starts_with reference prefix))
name_behind-IsSettled prefix place _ = tt

pub reference_name-IsSettled :
    (d : Dict Node) (prefix place : String) → IsSettled (reference_name d prefix place)
unfolding reference_name
reference_name-IsSettled d prefix place =
    IsSettled-bind _ _ (at_key-IsSettled "$ref" d) (name_behind-IsSettled prefix place)

pub check_supported-IsSettled :
    (d : Dict Node) (place : String) → IsSettled (check_supported d place)
unfolding check_supported IsSettled
check_supported-IsSettled d place =
    ground (arith, Bool-cases (empty (sorted (set_difference supported_keywords (keys d)))))

module _ (py : Python) where
  pub constraints-IsSettled : (d : Dict Node) (place : String) → IsSettled (constraints py d place)
  unfolding constraints IsSettled
  constraints-IsSettled d place = IsSettled-bind _ _ (check_supported-IsSettled d place) (λ _. tt)

  pub format_annotation-IsSettled :
      (place : String) (node : Option Node) → IsSettled (format_annotation py place node)
  unfolding IsSettled
  format_annotation-IsSettled place none = tt
  format_annotation-IsSettled place (some (str format)) =
      ground (arith, Option-cases (get format formats))
  format_annotation-IsSettled place (some _) = tt

  pub literal_value-IsSettled :
      (place : String) (node : Node) → IsSettled (literal_value py place node)
  unfolding IsSettled
  literal_value-IsSettled place (str value) = tt
  literal_value-IsSettled place _ = tt

  pub literal-IsSettled :
      (values : List Node) (place : String) → IsSettled (literal py values place)
  unfolding literal IsSettled
  literal-IsSettled values place =
      IsSettled-bind _ _
        (IsSettled-traverse (literal_value py place) (literal_value-IsSettled place) values)
        (λ _. tt)
