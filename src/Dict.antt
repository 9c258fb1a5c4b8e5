-- ===== src/Dict.antt =====
-- Python's `dict` of text keys: its items in the order of their insertion, and `sorted` over keys.
pub mod Laws
use Prim.Native.Nat.{Ordering}
use Prim.Native.String.{compare}
use claim_triage_agent.Common.{
  Bool, true, false, String, Option, none, some, List, [], ◌∷◌, ◌++◌, not, ◌==◌, string_equality,
  if◌then◌else◌,
}

abbrev pub Dict : Type 0 → Type 0
Dict V = List (String × V)

-- `key in d`, of what the lookup comes to
abbrev pub present : {A : Type 0} → Option A → Bool
present none = false
present (some _) = true

module _ {V : Type 0} where
  -- `d.get(key)`
  unfoldable pub get : String → Dict V → Option V
  get key [] = none
  get key (kv ∷ d) = let rest = get key d in if kv.0 == key then some kv.1 else rest

  -- `d[key] = value`: in its place, or at the end.
  unfoldable pub put : String → V → Dict V → Dict V
  put key value [] = (key, value) ∷ []
  put key value (kv ∷ d) =
      let rest = put key value d in if kv.0 == key then (key, value) ∷ d else kv ∷ rest

  -- `list(d)`
  unfoldable pub keys : Dict V → List String
  keys [] = []
  keys (kv ∷ d) = kv.0 ∷ keys d

  -- [name for name in names if name not in d]
  unfoldable pub missing_from : Dict V → List String → List String
  unfolding get
  missing_from d [] = []
  missing_from d (name ∷ names) =
      let rest = missing_from d names in if present (get name d) then rest else name ∷ rest

  -- {name: value for name, value in d.items() if test(name)}
  unfoldable pub only : (String → Bool) → Dict V → Dict V
  only test [] = []
  only test (kv ∷ d) = let rest = only test d in if test kv.0 then kv ∷ rest else rest

abbrev pub precedes : String → String → Bool
precedes s t = elim (compare s t) [ Ordering.gt ↦ false | _ ↦ true ]

unfoldable pub insert_name : String → List String → List String
insert_name name [] = name ∷ []
insert_name name (n ∷ names) =
    let rest = insert_name name names in if precedes name n then name ∷ n ∷ names else n ∷ rest

-- `sorted(names)`
unfoldable pub sorted : List String → List String
unfolding insert_name
sorted [] = []
sorted (name ∷ names) = insert_name name (sorted names)
