-- ===== src/Dict/Laws.antt =====
-- The names that a dictionary, its sorted keys and the keys missing from another one hold.
use claim_triage_agent.Common.{
  ◌≡◌, refl, some, if◌then◌else◌, ◌==◌, ◌↔◌, ◌⊎◌, inl, inr, true, false, String, List, [], ◌∷◌,
  ◌++◌, arith, eq_iff, Bool-cases, Has, string_equality,
}
use claim_triage_agent.Dict.{
  Dict, get, put, keys, present, missing_from, sorted, insert_name, precedes,
}

pub Has-append : {A : Type 0} (a : A) (xs ys : List A) → Has a (xs ++ ys) ↔ (Has a xs ⊎ Has a ys)
Has-append a [] ys = ground arith
Has-append a (x ∷ xs) ys = ground (arith, Has-append a xs ys)

module _ {V : Type 0} where
  pub keys_iff : (key : String) (d : Dict V) → Has key (keys d) ↔ (present (get key d) ≡ true)
  unfolding keys get
  keys_iff key [] = ground arith
  keys_iff key (kv ∷ d) = ground (arith, keys_iff key d, eq_iff kv.0 key)

  pub missing_iff :
      (key : String) (d : Dict V) (names : List String)
      → Has key (missing_from d names) ↔ (Has key names × (present (get key d) ≡ false))
  unfolding missing_from
  missing_iff key d [] = ground arith
  missing_iff key d (name ∷ names) = elim (Bool-cases (present (get name d))) [
    | inl held ↦ ground (arith, missing_iff key d names, held)
    | inr gone ↦ ground (arith, missing_iff key d names, gone)
  ]

insert_iff :
    (key name : String) (names : List String)
    → Has key (insert_name name names) ↔ ((key ≡ name) ⊎ Has key names)
unfolding insert_name
insert_iff key name [] = ground arith
insert_iff key name (n ∷ names) = elim (Bool-cases (precedes name n)) [
  | inl before ↦ ground (arith, before)
  | inr after ↦ ground (arith, after, insert_iff key name names)
]

pub sorted_iff : (key : String) (names : List String) → Has key (sorted names) ↔ Has key names
unfolding sorted
sorted_iff key [] = ground arith
sorted_iff key (name ∷ names) =
    ground (arith, insert_iff key name (sorted names), sorted_iff key names)

pub get-put :
    {V : Type 0} (j k : String) (v : V) (d : Dict V)
    → get j (put k v d) ≡ (if k == j then some v else get j d)
unfolding get put
get-put j k v [] = refl
get-put j k v (kv ∷ d) = ground (arith, eq_iff k j, eq_iff kv.0 k, eq_iff kv.0 j, get-put j k v d)
