-- ===== src/Base/Dict.antt =====
-- Python's `dict` with keys of type `str`: an association list in insertion order, one entry for
-- a key. An assignment to a key that is present keeps its place.
use text.Mathlib.TextPositions.{eq_refl}
use distributed_task_runner.Base.{
  ◌+◌, ◌≡◌, refl, String, Option, none, some, List, [], ◌∷◌, arith, ◌==◌, eq_iff, if◌then◌else◌,
  length,
}

abbrev pub Dict {ℓ} : Type ℓ → Type ℓ
Dict V = List (String × V)

module _ {ℓ} {V : Type ℓ} where
  -- d.values()
  unfoldable pub values : Dict V → List V
  values [] = []
  values ((name, value) ∷ rest) = value ∷ values rest

  -- d.pop(key, None)
  unfoldable pub erase : String → Dict V → Dict V
  erase key [] = []
  erase key ((name, value) ∷ rest) =
      let others = erase key rest in if name == key then others else (name, value) ∷ others

  -- d.get(key)
  unfoldable pub lookup : String → Dict V → Option V
  lookup key [] = none
  lookup key ((name, value) ∷ rest) = if name == key then some value else lookup key rest

  pub lookup-erase :
      (key name : String) (dict : Dict V)
      → lookup name (erase key dict) ≡ (if key == name then none else lookup name dict)
  unfolding lookup erase
  lookup-erase key name [] = ground arith
  lookup-erase key name ((other, value) ∷ rest) =
      ground
        (arith, lookup-erase key name rest, eq_iff other name, eq_iff other key, eq_iff key name)

  -- d[key] = value
  unfoldable pub insert : String → V → Dict V → Dict V
  insert key value [] = (key, value) ∷ []
  insert key value ((name, old) ∷ rest) =
      let others = insert key value rest in
      if name == key then (key, value) ∷ rest else (name, old) ∷ others

  pub lookup-insert :
      (key name : String) (value : V) (dict : Dict V)
      → lookup name (insert key value dict) ≡ (if key == name then some value else lookup name dict)
  unfolding lookup insert
  lookup-insert key name value [] = refl
  lookup-insert key name value ((other, old) ∷ rest) = ground (
    arith,
    lookup-insert key name value rest,
    eq_iff other name,
    eq_iff other key,
    eq_iff key name,
  )

  pub lookup-insert_self :
      (key : String) (value : V) (dict : Dict V) → lookup key (insert key value dict) ≡ some value
  lookup-insert_self key value dict = rw (lookup-insert, eq_refl)

  -- A key that is new adds an entry; one that is present adds none.
  pub length-insert :
      (key : String) (value : V) (dict : Dict V)
      → length (insert key value dict)
        ≡ length dict + (elim (lookup key dict) [ none ↦ 1 | some _ ↦ 0 ])
  unfolding lookup insert
  length-insert key value [] = refl
  length-insert key value ((name, old) ∷ rest) = ground (arith, length-insert key value rest)
