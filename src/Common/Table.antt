-- ===== src/Common/Table.antt =====
-- Go's `map[string]V` as an association list. A nil map is a separate value: it reads as empty.
use kws_control.Common.{◌≡◌, refl, Option, none, some, List, [], ◌∷◌, arith, if◌then◌else◌}
use kws_control.Common.Text.{GoString, str_eq, str_eq_iff}

abbrev pub Table {ℓ} : Type ℓ → Type ℓ
Table V = List (GoString × V)

module _ {ℓ} {V : Type ℓ} where
  -- `m[k]`
  unfoldable pub lookup : GoString → Table V → Option V
  lookup k [] = none
  lookup k ((j, v) ∷ m) = if str_eq j k then some v else lookup k m

  -- `m[k] = v`
  unfoldable pub insert : GoString → V → Table V → Table V
  insert k v [] = (k, v) ∷ []
  insert k v ((j, w) ∷ m) = if str_eq j k then (k, v) ∷ m else (j, w) ∷ insert k v m

  -- `delete(m, k)`
  unfoldable pub erase : GoString → Table V → Table V
  erase k [] = []
  erase k ((j, w) ∷ m) = let rest = erase k m in if str_eq j k then rest else (j, w) ∷ rest

  -- A map that may be nil, read.
  abbrev pub entries : Option (Table V) → Table V
  entries none = []
  entries (some m) = m

  pub lookup-insert :
      (k j : GoString) (v : V) (m : Table V)
      → lookup j (insert k v m) ≡ (if str_eq k j then some v else lookup j m)
  unfolding lookup insert
  lookup-insert k j v [] = refl
  lookup-insert k j v ((i, w) ∷ m) =
      ground (arith, str_eq_iff k j, str_eq_iff i k, str_eq_iff i j, lookup-insert k j v m)

  pub lookup-erase :
      (k j : GoString) (m : Table V)
      → lookup j (erase k m) ≡ (if str_eq k j then none else lookup j m)
  unfolding lookup erase
  lookup-erase k j [] = ground arith
  lookup-erase k j ((i, w) ∷ m) =
      ground (arith, str_eq_iff k j, str_eq_iff i k, str_eq_iff i j, lookup-erase k j m)

  -- Erasing an absent key changes nothing.
  pub erase_absent : (k : GoString) (m : Table V) → lookup k m ≡ none → erase k m ≡ m
  unfolding lookup erase
  erase_absent k [] h = refl
  erase_absent k ((i, w) ∷ m) h = ground (arith, erase_absent k m)

  -- Erasing a key that has just been added gives the map back.
  pub erase-insert :
      (k : GoString) (v : V) (m : Table V) → lookup k m ≡ none → erase k (insert k v m) ≡ m
  unfolding lookup erase insert
  erase-insert k v [] h = ground (arith, str_eq_iff k k)
  erase-insert k v ((i, w) ∷ m) h = ground (arith, erase-insert k v m, str_eq_iff k k)
