-- ===== src/Prelude/Maps.antt =====
-- Go's `map[string]V` as an association list; the order of the list stands for an order in which
-- `range` may visit the entries. `insert` writes `m[k] = v`, `delete` is Go's `delete`.
use Prim.Native.Nat.{suc, ◌≤◌}
use mathlib.Core.Path.{◌≡◌, refl, subst}
use mathlib.Core.Logic.{inl, inr}
use mathlib.Core.Option.{Option, none, some}
use mathlib.Core.List.{List, [], ◌∷◌}
use native.Mathlib.Omega.{arith}
use go_rflink.Prelude.Tests.{if◌then◌else◌, Bool-cases}
use go_rflink.Prelude.Lists.{length, All}
use go_rflink.Prelude.Text.{Text, text_eq, text_eq_iff}

module _ {ℓ} {V : Type ℓ} where
  abbrev pub lookup : Text → List (Text × V) → Option V
  lookup k [] = none
  lookup k ((j, v) ∷ m) = if text_eq j k then some v else lookup k m

  abbrev pub insert : Text → V → List (Text × V) → List (Text × V)
  insert k v [] = (k, v) ∷ []
  insert k v ((j, w) ∷ m) = if text_eq j k then (k, v) ∷ m else (j, w) ∷ insert k v m

  abbrev pub delete : Text → List (Text × V) → List (Text × V)
  delete k [] = []
  delete k ((j, w) ∷ m) = if text_eq j k then delete k m else (j, w) ∷ delete k m

  pub lookup-insert :
      (k j : Text) (v : V) (m : List (Text × V))
      → lookup j (insert k v m) ≡ (if text_eq k j then some v else lookup j m)
  lookup-insert k j v [] = refl
  lookup-insert k j v ((i, w) ∷ m) =
      ground (arith, text_eq_iff k j, text_eq_iff i k, text_eq_iff i j, lookup-insert k j v m)

  pub lookup-delete :
      (k j : Text) (m : List (Text × V))
      → lookup j (delete k m) ≡ (if text_eq k j then none else lookup j m)
  lookup-delete k j [] = ground arith
  lookup-delete k j ((i, w) ∷ m) =
      ground (arith, text_eq_iff k j, text_eq_iff i k, text_eq_iff i j, lookup-delete k j m)

  -- No key stands twice, as in every Go map.
  abbrev pub UniqueKeys : List (Text × V) → Type ℓ
  UniqueKeys [] = Unit
  UniqueKeys ((k, v) ∷ m) = (lookup k m ≡ none) × UniqueKeys m

  pub delete-UniqueKeys : (k : Text) (m : List (Text × V)) → UniqueKeys m → UniqueKeys (delete k m)
  delete-UniqueKeys k [] h = h
  delete-UniqueKeys k ((j, w) ∷ m) h =
      ground (arith, delete-UniqueKeys k m h.1, lookup-delete k j m)

  pub insert-UniqueKeys :
      (k : Text) (v : V) (m : List (Text × V)) → UniqueKeys m → UniqueKeys (insert k v m)
  insert-UniqueKeys k v [] h = ground arith
  insert-UniqueKeys k v ((j, w) ∷ m) h =
      ground (
        arith,
        insert-UniqueKeys k v m h.1,
        lookup-insert k j v m,
        text_eq_iff j k,
        text_eq_iff k j,
      )

  -- A write of a missing key adds one entry, and of a present one none.
  pub length-insert :
      (k : Text) (v : V) (m : List (Text × V))
      → length (insert k v m) ≡ (elim (lookup k m) [ none ↦ suc (length m) | some _ ↦ length m ])
  length-insert k v [] = refl
  length-insert k v ((j, w) ∷ m) = ground (arith, length-insert k v m)

  pub delete_absent : (k : Text) (m : List (Text × V)) → lookup k m ≡ none → delete k m ≡ m
  delete_absent k [] h = refl
  delete_absent k ((j, w) ∷ m) h = ground (arith, delete_absent k m)

  -- Removing a present key removes one entry.
  pub length-delete :
      (k : Text) (v : V) (m : List (Text × V))
      → UniqueKeys m
      → lookup k m ≡ some v
      → suc (length (delete k m)) ≡ length m
  length-delete k v [] u h = cc
  length-delete k v ((j, w) ∷ m) u h =
      ground (arith, length-delete k v m u.1, delete_absent k m, text_eq_iff j k)

  pub length-delete-le : (k : Text) (m : List (Text × V)) → length (delete k m) ≤ length m
  length-delete-le k [] = omega arith
  length-delete-le k ((j, w) ∷ m) = ground (arith, length-delete-le k m)

  pub All-lookup {κ} :
      (P : Text × V → Type κ) (k : Text) (v : V) (m : List (Text × V))
      → All P m
      → lookup k m ≡ some v
      → P (k, v)
  All-lookup P k v [] a h = cc
  All-lookup P k v ((j, w) ∷ m) a h = elim (Bool-cases (text_eq j k)) [
    | inl hit ↦ subst P (ground (arith, text_eq_iff j k)) a.0
    | inr miss ↦ All-lookup P k v m a.1 (ground arith)
  ]

  pub All-delete {κ} :
      (P : Text × V → Type κ) (k : Text) (m : List (Text × V)) → All P m → All P (delete k m)
  All-delete P k [] a = tt
  All-delete P k ((j, w) ∷ m) a = elim (Bool-cases (text_eq j k)) [
    | inl hit ↦ rw hit (All-delete P k m a.1)
    | inr miss ↦ rw miss (a.0, All-delete P k m a.1)
  ]

  pub All-insert {κ} :
      (P : Text × V → Type κ) (k : Text) (v : V) (m : List (Text × V))
      → P (k, v)
      → All P m
      → All P (insert k v m)
  All-insert P k v [] p a = (p, tt)
  All-insert P k v ((j, w) ∷ m) p a = elim (Bool-cases (text_eq j k)) [
    | inl hit ↦ rw hit (p, a.1)
    | inr miss ↦ rw miss (a.0, All-insert P k v m p a.1)
  ]
