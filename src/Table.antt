-- ===== src/Table.antt =====
-- Go's `map[string]V`: an association list in some order of its keys. A `range` over the map visits
-- the list from its head; Go leaves that order open, so it is any list with these entries. A map
-- that the program builds has each key once (`Distinct`).
use expert_octo_enigma.Prelude.{
  String, ◌≡◌, refl, ◌∙◌, Bool, true, false, not, ◌&&◌, ◌||◌, Option, none, some, List, [], ◌∷◌,
  map, arith, str_eq, eq_iff, if◌then◌else◌,
}

abbrev pub Table {ℓ} : Type ℓ → Type ℓ
Table V = List (String × V)

module _ {ℓ} {V : Type ℓ} where
  -- `v, ok := m[key]`
  unfoldable pub lookup : String → Table V → Option V
  lookup key [] = none
  lookup key ((other, x) ∷ rest) = if str_eq other key then some x else lookup key rest

  -- `m[key] = x`
  unfoldable pub insert : String → V → Table V → Table V
  insert key x [] = (key, x) ∷ []
  insert key x ((other, y) ∷ rest) =
      if str_eq other key then (other, x) ∷ rest else (other, y) ∷ insert key x rest

  -- `delete(m, k)`
  unfoldable pub delete : String → Table V → Table V
  delete k [] = []
  delete k ((j, w) ∷ m) = let rest = delete k m in if str_eq j k then rest else (j, w) ∷ rest

  -- `_, ok := m[k]`
  unfoldable pub has : String → Table V → Bool
  has k [] = false
  has k ((j, w) ∷ m) = str_eq j k || has k m

  abbrev pub values : Table V → List V
  values = map (λ e. e.1)

  -- No key stands twice.
  abbrev pub Distinct : Table V → Type 0
  Distinct [] = Unit
  Distinct ((k, v) ∷ m) = (has k m ≡ false) × Distinct m

  pub lookup-insert :
      (key wanted : String) (x : V) (rest : Table V)
      → lookup wanted (insert key x rest)
        ≡ (if str_eq key wanted then some x else lookup wanted rest)
  unfolding lookup insert
  lookup-insert key wanted x [] = refl
  lookup-insert key wanted x ((other, y) ∷ rest) = ground (
    arith,
    lookup-insert key wanted x rest,
    eq_iff key wanted,
    eq_iff other key,
    eq_iff other wanted,
  )

  pub lookup-insert_self :
      (key : String) (x : V) (rest : Table V) → lookup key (insert key x rest) ≡ some x
  lookup-insert_self key x rest = ground (arith, eq_iff key key, lookup-insert key key x rest)

  -- An entry that is written and then changed in place.
  pub lookup-insert_again :
      (key wanted : String) (x : V) (change : Option V → V) (rest : Table V)
      → let once = insert key x rest in
        lookup wanted (insert key (change (lookup key once)) once)
        ≡ (if str_eq key wanted then some (change (some x)) else lookup wanted rest)
  lookup-insert_again key wanted x change rest = rw (lookup-insert_self key x rest) (
      lookup-insert key wanted (change (some x)) (insert key x rest)
      ∙ ground (arith, lookup-insert key wanted x rest))

  pub lookup-delete :
      (k j : String) (m : Table V)
      → lookup j (delete k m) ≡ (if str_eq k j then none else lookup j m)
  unfolding lookup delete
  lookup-delete k j [] = ground arith
  lookup-delete k j ((i, w) ∷ m) =
      ground (arith, eq_iff k j, eq_iff i k, eq_iff i j, lookup-delete k j m)

  pub has-insert :
      (k j : String) (v : V) (m : Table V) → has j (insert k v m) ≡ (str_eq k j || has j m)
  unfolding has insert
  has-insert k j v [] = refl
  has-insert k j v ((i, w) ∷ m) =
      ground (arith, eq_iff k j, eq_iff i k, eq_iff i j, has-insert k j v m)

  pub has-delete : (k j : String) (m : Table V) → has j (delete k m) ≡ (not (str_eq k j) && has j m)
  unfolding has delete
  has-delete k j [] = ground arith
  has-delete k j ((i, w) ∷ m) = ground (arith, eq_iff k j, eq_iff i k, eq_iff i j, has-delete k j m)

  pub has-lookup : (k : String) (m : Table V) (v : V) → lookup k m ≡ some v → has k m ≡ true
  unfolding has lookup
  has-lookup k [] v h = ground arith
  has-lookup k ((j, w) ∷ m) v h = ground (arith, has-lookup k m v)

  pub lookup-has-not : (k : String) (m : Table V) → has k m ≡ false → lookup k m ≡ none
  unfolding has lookup
  lookup-has-not k [] h = refl
  lookup-has-not k ((j, w) ∷ m) h = ground (arith, lookup-has-not k m)

  pub insert-Distinct : (k : String) (v : V) (m : Table V) → Distinct m → Distinct (insert k v m)
  unfolding insert has
  insert-Distinct k v [] d = ground arith
  insert-Distinct k v ((j, w) ∷ m) d =
      ground (arith, insert-Distinct k v m d.1, has-insert k j v m, eq_iff k j, eq_iff j k)

  pub delete-Distinct : (k : String) (m : Table V) → Distinct m → Distinct (delete k m)
  unfolding delete
  delete-Distinct k [] d = tt
  delete-Distinct k ((j, w) ∷ m) d =
      ground (arith, delete-Distinct k m d.1, has-delete k j m, eq_iff k j)
