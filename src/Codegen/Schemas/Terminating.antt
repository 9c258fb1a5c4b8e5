-- ===== src/Codegen/Schemas/Terminating.antt =====
-- The recursion of an annotation ends where the references of the named schemas form no circle.
use mathlib.Core.Path.{subst}
use native.Mathlib.Nat.{mul-le-mul_right}
use claim_triage_agent.Common.{
  ℕ, zero, suc, ◌+◌, ◌*◌, ◌<◌, ◌≤◌, max, ◌≡◌, ◌≢◌, refl, ap, inl, inr, String, some, false, [], ◌∷◌,
  ◌==◌, arith, Bool-cases, Option-cases, string_equality,
}
use claim_triage_agent.Dict.{Dict, get}
use claim_triage_agent.Codegen.{
  Node, Items, Entries, null, flag, number, str, sequence, mapping, no_items, item, no_entries,
  entry, entries_of, Python, made, stopped, too_deep, at_key, as_mapping,
}
use claim_triage_agent.Codegen.Schemas.{is_class, reference_name, schema_prefix, annotation}
use claim_triage_agent.Codegen.Schemas.Agreeing.{annotate-Agree}
use claim_triage_agent.Codegen.Schemas.Settled.{IsSettled, Agree}

-- How deep a node is nested.
unfoldable mutual
  pub depth_of : Node → ℕ
  depth_of null = 0
  depth_of (flag b) = 0
  depth_of (number s) = 0
  depth_of (str s) = 0
  depth_of (sequence xs) = suc (items_depth xs)
  depth_of (mapping es) = suc (entries_depth es)

  pub items_depth : Items → ℕ
  items_depth no_items = 0
  items_depth (item node rest) = max (depth_of node) (items_depth rest)

  pub entries_depth : Entries → ℕ
  entries_depth no_entries = 0
  entries_depth (entry key node rest) = max (depth_of node) (entries_depth rest)

unfoldable pub dict_depth : Dict Node → ℕ
dict_depth [] = 0
dict_depth (kv ∷ d) = max (depth_of kv.1) (dict_depth d)

entries_depth-eq : (es : Entries) → entries_depth es ≡ dict_depth (entries_of es)
unfolding depth_of entries_of dict_depth
entries_depth-eq no_entries = refl
entries_depth-eq (entry key node rest) = rw (entries_depth-eq rest) refl

get-depth :
    (key : String) (d : Dict Node) (node : Node)
    → get key d ≡ some node
    → depth_of node ≤ dict_depth d
unfolding get dict_depth
get-depth key [] node h = ground (arith, h)
get-depth key (kv ∷ d) node h = elim (Bool-cases (kv.0 == key)) [
  | inl same ↦ ground (arith, h, same)
  | inr other ↦ ground (arith, h, other, get-depth key d node)
]

-- The names of schemas that the annotation of a schema leads to: the one that it is a reference to,
-- or those that its items lead to.
pub data Refers : Dict Node → String → Type 0 where
  directly :
      (d : Dict Node) (name place : String)
      → reference_name d schema_prefix place ≡ made name
      → Refers d name
  by_items :
      (d : Dict Node) (node : Node) (element : Dict Node) (name : String)
      → at_key "items" d ≡ made node
      → as_mapping node ≡ made element
      → Refers element name
      → Refers d name

same_entries : (es : Entries) (t : Dict Node) → as_mapping (mapping es) ≡ made t → entries_of es ≡ t
unfolding as_mapping
same_entries es t h = ground (arith, h)

as_mapping-depth :
    (node : Node) (t : Dict Node) → as_mapping node ≡ made t → dict_depth t < depth_of node
unfolding as_mapping depth_of
as_mapping-depth (mapping es) t h =
    ground (arith, h, entries_depth-eq es, ap dict_depth (same_entries es t h))
as_mapping-depth _ t h = ground (arith, h)

-- What is read of a mapping is nested less than it.
at_key-depth :
    (key : String) (d : Dict Node) (node : Node) (t : Dict Node)
    → at_key key d ≡ made node
    → as_mapping node ≡ made t
    → dict_depth t < dict_depth d
unfolding at_key
at_key-depth key d node t h k =
    ground (arith, h, Option-cases (get key d), get-depth key d node, as_mapping-depth node t k)

-- A rank of the named schemas: one that is no class leads to lower ranks only.
unfoldable pub IsRanked : Dict Node → (String → ℕ) → Type 0
IsRanked schemas rank =
    (name : String) (node : Node) (target : Dict Node)
    → at_key name schemas ≡ made node
    → as_mapping node ≡ made target
    → is_class target ≡ false
    → (r : String) → Refers target r
    → rank r < rank name

-- The depth of recursion that is enough where every rank it leads to is below `r`.
unfoldable pub enough : Dict Node → Dict Node → ℕ → ℕ
enough schemas d r = r * suc (dict_depth schemas) + suc (dict_depth d)

room : (a r h k f : ℕ) → a < r → 0 < k → r * suc h + k ≤ suc f → a * suc h + h ≤ f
room a r h k f below some_left fits = omega (arith, mul-le-mul_right (suc h) below)

module _ (py : Python) (schemas : Dict Node) (rank : String → ℕ)
    (ranked : IsRanked schemas rank) where
  Agree-enough :
      (f f' r k : ℕ) (d : Dict Node) (place : String)
      → ((name : String) → Refers d name → rank name < r)
      → dict_depth d < k
      → r * suc (dict_depth schemas) + k ≤ f
      → r * suc (dict_depth schemas) + k ≤ f'
      → Agree (annotation py schemas f d place) (annotation py schemas f' d place)
  unfolding annotation IsRanked
  Agree-enough zero f' r k d place below deep fits fits' = absurd (omega arith)
  Agree-enough (suc f) zero r k d place below deep fits fits' = absurd (omega arith)
  Agree-enough (suc f) (suc f') r k d place below deep fits fits' =
      annotate-Agree py (annotation py schemas f) (annotation py schemas f') schemas d place
        (λ name node target named held as_target other.
          let lower = below name (directly d name place named) in
          Agree-enough f f' (rank name) (dict_depth schemas) target name
            (ranked name node target held as_target other)
            (at_key-depth name schemas node target held as_target)
            (room _ _ (dict_depth schemas) k f lower (omega arith) fits)
            (room _ _ (dict_depth schemas) k f' lower (omega arith) fits'))
        (λ node element inner held as_element.
          Agree-enough f f' r (dict_depth d) element inner
            (λ name leads. below name (by_items d node element name held as_element leads))
            (at_key-depth "items" d node element held as_element) (omega arith) (omega arith))

-- Where a ranking of the named schemas rules out circles of references, and a schema leads to ranks
-- below `r` only, its annotation comes to the same on every depth of recursion that is enough, and it
-- is no RecursionError.
pub annotation_settles :
    (py : Python) (schemas : Dict Node) (rank : String → ℕ) (r : ℕ) (d : Dict Node) (place : String)
    (depth : ℕ)
    → IsRanked schemas rank
    → ((name : String) → Refers d name → rank name < r)
    → enough schemas d r ≤ depth
    → (annotation py schemas depth d place ≡ annotation py schemas (enough schemas d r) d place)
      × (annotation py schemas depth d place ≢ stopped too_deep)
unfolding enough Agree IsSettled
annotation_settles py schemas rank r d place depth ranked below fits =
    let agree =
      Agree-enough py schemas rank ranked depth (enough schemas d r) r (suc (dict_depth d)) d place
        below (omega arith) fits (omega arith) in
    (agree.0, λ e. subst (λ m. IsSettled m) e agree.1)
