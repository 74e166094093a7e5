-- ===== src/Base/Array.antt =====
-- Go arrays and slices by index, where an index out of range is a panic: `none`.
use Prim.Native.Nat.{ℕ, zero, suc, ◌<◌}
use mathlib.Core.List.{List, [], ◌∷◌, ◌++◌}
use mathlib.Core.Option.{Option, none, some}
use mathlib.Core.Path.{◌≡◌, refl, ap}
use mime.Base.Lists.{length, take, get_elem?}
use native.Mathlib.Omega.{arith}

infixl 5 ◌>>=◌
abbrev pub ◌>>=◌ {ℓ κ} : {A : Type ℓ} {B : Type κ} → Option A → (A → Option B) → Option B
none >>= f = none
some a >>= f = f a

-- A chain that gives a result has one for its first step.
pub bind-some {ℓ κ} :
    {A : Type ℓ} {B : Type κ} (o : Option A) (f : A → Option B) {b : B}
    → (o >>= f) ≡ some b
    → (a : A) × (o ≡ some a) × (f a ≡ some b)
bind-some none f h = cc
bind-some (some a) f h = (a, refl, h)

module _ {ℓ} {A : Type ℓ} where
  -- `a[i] = v`
  unfoldable pub store : List A → ℕ → A → Option (List A)
  store [] i v = none
  store (x ∷ xs) zero v = some (v ∷ xs)
  store (x ∷ xs) (suc i) v = store xs i v >>= λ ys. some (x ∷ ys)

  -- What a store within the bounds leaves: the array has its length, and the front of it that ends
  -- with the new value is known.
  pub record Stored (xs : List A) (i : ℕ) (v : A) : Type ℓ where
    pub after : List A
    pub stores : store xs i v ≡ some after
    pub keeps : length after ≡ length xs
    pub front : take (suc i) after ≡ take i xs ++ (v ∷ [])

  pub store-Stored : (xs : List A) (i : ℕ) (v : A) → i < length xs → Stored xs i v
  unfolding store
  store-Stored [] i v h = absurd (omega arith)
  store-Stored (x ∷ xs) zero v h = record {
    after = v ∷ xs;
    stores = refl;
    keeps = refl;
    front = refl;
  }
  store-Stored (x ∷ xs) (suc i) v h =
      let s = store-Stored xs i v (omega arith) in
      record {
        after = x ∷ s.after;
        stores = rw s.stores;
        keeps = ap suc s.keeps;
        front = ap (◌∷◌ x) s.front;
      }

  pub get-total : (xs : List A) (i : ℕ) → i < length xs → (v : A) × (get_elem? xs i ≡ some v)
  get-total [] i h = absurd (omega arith)
  get-total (x ∷ xs) zero h = (x, refl)
  get-total (x ∷ xs) (suc i) h = get-total xs i (omega arith)

-- unfolds what a test computes with
unfoldable pub computes : Unit {0}
unfolding store
computes = tt
