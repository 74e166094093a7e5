-- ===== src/Base/Dict.antt =====
-- Go maps with string keys, as association lists. An insertion keeps the place of a key.
use mime.Base.Bytes
use mathlib.Core.List.{List, [], ◌∷◌, ◌++◌, map}
use mathlib.Core.Option.{Option, none, some}
use mathlib.Core.Path.{◌≡◌, refl, sym, ◌∙◌}
use mathlib.Core.Logic.{◌⊎◌, inl, inr}
use mime.Base.Bytes.{Bytes, equal, equal_iff, equal_refl}
use mime.Base.Tests.{Bool-cases, if◌then◌else◌}
use native.Mathlib.Omega.{arith}

module _ {ℓ} {V : Type ℓ} where
  unfoldable pub lookup : Bytes → List (Bytes × V) → Option V
  lookup key [] = none
  lookup key ((name, value) ∷ rest) = if equal name key then some value else lookup key rest

  unfoldable pub insert : Bytes → V → List (Bytes × V) → List (Bytes × V)
  insert key new [] = (key, new) ∷ []
  insert key new ((name, value) ∷ rest) =
      if equal name key then (key, new) ∷ rest else (name, value) ∷ insert key new rest

  -- `range` over the keys
  abbrev pub keys : List (Bytes × V) → List Bytes
  keys = map (λ e. e.0)

  -- A new key goes to the end.
  pub insert_new :
      (key : Bytes) (new : V) (m : List (Bytes × V))
      → lookup key m ≡ none
      → insert key new m ≡ m ++ (key, new) ∷ []
  unfolding lookup insert
  insert_new key new [] absent = refl
  insert_new key new ((name, value) ∷ rest) absent = ground (arith, insert_new key new rest)

  -- A read after a write, at the same key or another.
  pub lookup-insert :
      (written read : Bytes) (new : V) (m : List (Bytes × V))
      → lookup read (insert written new m)
        ≡ (if equal written read then some new else lookup read m)
  unfolding lookup insert
  lookup-insert written read new [] = refl
  lookup-insert written read new ((name, value) ∷ rest) = ground (
    arith,
    lookup-insert written read new rest,
    equal_iff name written,
    equal_iff name read,
    equal_iff written read,
  )

  -- The key has a value.
  abbrev pub Has : Bytes → List (Bytes × V) → Type ℓ
  Has key m = (v : V) × (lookup key m ≡ some v)

  -- Which keys have a value after a write.
  pub Has-insert_self : (key : Bytes) (new : V) (m : List (Bytes × V)) → Has key (insert key new m)
  Has-insert_self key new m = (new, lookup-insert key key new m ∙ rw (equal_refl key) refl)

  pub Has-insert :
      (written read : Bytes) (new : V) (m : List (Bytes × V))
      → Has read m
      → Has read (insert written new m)
  Has-insert written read new m (v, h) = elim (Bool-cases (equal written read)) [
    | inl e ↦ (new, lookup-insert written read new m ∙ rw e refl)
    | inr e ↦ (v, lookup-insert written read new m ∙ rw e h)
  ]

  pub insert-Has :
      (written read : Bytes) (new : V) (m : List (Bytes × V))
      → Has read (insert written new m)
      → (read ≡ written) ⊎ Has read m
  insert-Has written read new m (v, h) = elim (Bool-cases (equal written read)) [
    | inl e ↦ inl (sym ((equal_iff written read).0 e))
    | inr e ↦ inr (v, sym (lookup-insert written read new m ∙ rw e refl) ∙ h)
  ]

-- unfolds what a test of this file computes with
unfoldable pub computes : Unit {0}
unfolding lookup insert Bytes.computes
computes = tt
