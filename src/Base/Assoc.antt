-- ===== src/Base/Assoc.antt =====
-- A Go map with string keys, as an association list.
use multi_tenant_messaging.Base.{
  List, String, Bool, Option, str_eq, ◌∷◌, ◌≡◌, Bool-cases, arith, false, if◌then◌else◌, none, some,
  eq_iff, inl, length, refl, suc, ◌||◌, ap, inr, subst, subst₂,
}
use mathlib.Core.List.{[]}

module _ {ℓ} {V : Type ℓ} where
  unfoldable pub lookup : String → List (String × V) → Option V
  lookup key [] = none
  lookup key (entry ∷ rest) = if str_eq entry.0 key then some entry.1 else lookup key rest

  -- The map's entry under a key that it does not have, or the new value of one that it has.
  unfoldable pub insert : String → V → List (String × V) → List (String × V)
  insert key value [] = (key, value) ∷ []
  insert key value (entry ∷ rest) =
      if str_eq entry.0 key then (key, value) ∷ rest else entry ∷ insert key value rest

  unfoldable pub delete : String → List (String × V) → List (String × V)
  delete key [] = []
  delete key (entry ∷ rest) =
      if str_eq entry.0 key then delete key rest else entry ∷ delete key rest

  pub lookup-insert :
      (key other : String) (value : V) (entries : List (String × V))
      → lookup other (insert key value entries)
        ≡ (if str_eq key other then some value else lookup other entries)
  unfolding insert lookup
  lookup-insert key other value [] = ground arith
  lookup-insert key other value ((name, held) ∷ rest) =
      let further = lookup-insert key other value rest in
      ground (arith, further, eq_iff name other, eq_iff name key, eq_iff key other)

  pub lookup-delete :
      (key other : String) (entries : List (String × V))
      → lookup other (delete key entries)
        ≡ (if str_eq key other then none else lookup other entries)
  unfolding delete lookup
  lookup-delete key other [] = ground arith
  lookup-delete key other ((name, held) ∷ rest) =
      let further = lookup-delete key other rest in
      ground (arith, further, eq_iff name other, eq_iff name key, eq_iff key other)

  -- Whether some entry has the key.
  abbrev pub has_key : String → List (String × V) → Bool
  has_key k [] = false
  has_key k ((j, v) ∷ m) = str_eq j k || has_key k m

  -- No two entries share a key, as in a map.
  abbrev pub HasDistinctKeys : List (String × V) → Type 0
  HasDistinctKeys [] = Unit
  HasDistinctKeys ((j, v) ∷ m) = (has_key j m ≡ false) × HasDistinctKeys m

  insert-length :
      (k : String) (v : V) (m : List (String × V))
      → lookup k m ≡ none
      → length (insert k v m) ≡ suc (length m)
  unfolding lookup insert
  insert-length k v [] e = refl
  insert-length k v ((j, w) ∷ m) e = ground (arith, insert-length k v m)

  has_key-insert :
      (j k : String) (v : V) (m : List (String × V))
      → str_eq k j ≡ false
      → has_key j m ≡ false
      → has_key j (insert k v m) ≡ false
  unfolding insert
  has_key-insert j k v [] differs e = ground arith
  has_key-insert j k v ((i, w) ∷ m) differs e =
      ground (arith, eq_iff i k, has_key-insert j k v m differs)

  pub insert-HasDistinctKeys :
      (k : String) (v : V) (m : List (String × V))
      → HasDistinctKeys m
      → HasDistinctKeys (insert k v m)
  unfolding insert
  insert-HasDistinctKeys k v [] d = (refl, tt)
  insert-HasDistinctKeys k v ((i, w) ∷ m) (fresh, d) = elim (Bool-cases (str_eq i k)) [
    | inl same ↦ rw same (subst (λ j. has_key j m ≡ false) ((eq_iff i k).0 same) fresh, d)
    | inr differs ↦ rw differs (
      has_key-insert i k v m (ground (arith, eq_iff i k, eq_iff k i)) fresh,
      insert-HasDistinctKeys k v m d,
    )
  ]

  has_key-delete :
      (j k : String) (m : List (String × V)) → has_key j m ≡ false → has_key j (delete k m) ≡ false
  unfolding delete
  has_key-delete j k [] e = refl
  has_key-delete j k ((i, w) ∷ m) e = ground (arith, has_key-delete j k m)

  pub delete-HasDistinctKeys :
      (k : String) (m : List (String × V)) → HasDistinctKeys m → HasDistinctKeys (delete k m)
  unfolding delete
  delete-HasDistinctKeys k [] d = tt
  delete-HasDistinctKeys k ((i, w) ∷ m) (fresh, d) =
      ground (arith, has_key-delete i k m fresh, delete-HasDistinctKeys k m d)

  delete_absent : (k : String) (m : List (String × V)) → has_key k m ≡ false → delete k m ≡ m
  unfolding delete
  delete_absent k [] e = refl
  delete_absent k ((i, w) ∷ m) e = ground (arith, delete_absent k m)

  -- Deleting a key that is there removes one entry.
  pub length-delete :
      (k : String) (v : V) (m : List (String × V))
      → HasDistinctKeys m
      → lookup k m ≡ some v
      → suc (length (delete k m)) ≡ length m
  unfolding delete lookup
  length-delete k v [] d e = absurd (ground arith)
  length-delete k v ((i, w) ∷ m) (fresh, d) e = elim (Bool-cases (str_eq i k)) [
    | inl same ↦ rw same (
        ap suc (
          ap length
            (delete_absent k m (subst (λ j. has_key j m ≡ false) ((eq_iff i k).0 same) fresh))))
    | inr differs ↦ rw differs (ap suc (length-delete k v m d (ground arith)))
  ]

-- What holds of every entry.
module _ {ℓ κ} {V : Type ℓ} (P : String → V → Type κ) where
  abbrev pub AllEntries : List (String × V) → Type κ
  AllEntries [] = Unit
  AllEntries ((k, v) ∷ m) = P k v × AllEntries m

  pub lookup-AllEntries :
      (k : String) (v : V) (m : List (String × V)) → AllEntries m → lookup k m ≡ some v → P k v
  unfolding lookup
  lookup-AllEntries k v [] a e = cc
  lookup-AllEntries k v ((j, w) ∷ m) (p, a) e = elim (Bool-cases (str_eq j k)) [
    | inl same ↦ subst₂ P ((eq_iff j k).0 same) (ground arith) p
    | inr differs ↦ lookup-AllEntries k v m a (ground arith)
  ]

  pub insert-AllEntries :
      (k : String) (v : V) (m : List (String × V))
      → AllEntries m
      → P k v
      → AllEntries (insert k v m)
  unfolding insert
  insert-AllEntries k v [] a p = (p, tt)
  insert-AllEntries k v ((j, w) ∷ m) (q, a) p = elim (Bool-cases (str_eq j k)) [
    | inl same ↦ rw same (p, a)
    | inr differs ↦ rw differs (q, insert-AllEntries k v m a p)
  ]

  pub delete-AllEntries :
      (k : String) (m : List (String × V)) → AllEntries m → AllEntries (delete k m)
  unfolding delete
  delete-AllEntries k [] a = tt
  delete-AllEntries k ((j, w) ∷ m) (q, a) = elim (Bool-cases (str_eq j k)) [
    | inl same ↦ rw same (delete-AllEntries k m a)
    | inr differs ↦ rw differs (q, delete-AllEntries k m a)
  ]
