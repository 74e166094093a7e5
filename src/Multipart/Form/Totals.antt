-- ===== src/Multipart/Form/Totals.antt =====
-- multipart/formdata.go: sums over the values of a map of slices.
use mime.Base.Dict.{lookup, insert}
use mime.Base.{ℕ, ◌+◌, List, [], ◌∷◌, ◌++◌, ◌≡◌, arith, Bool-cases, inl, inr}
use mime.Base.Bytes.{Bytes, equal}
use mime.Multipart.Form.{or_nil, append_to}

module _ {ℓ} {V : Type ℓ} (f : V → ℕ) where
  abbrev pub total : List V → ℕ
  total [] = 0
  total (v ∷ vs) = f v + total vs

  abbrev pub total_of : List (Bytes × List V) → ℕ
  total_of [] = 0
  total_of ((name, vs) ∷ rest) = total vs + total_of rest

  total-append : (us : List V) (v : V) → total (us ++ (v ∷ [])) ≡ total us + f v
  total-append [] v = omega arith
  total-append (u ∷ us) v = omega (arith, total-append us v)

  total_of-insert :
      (name : Bytes) (vs : List V) (m : List (Bytes × List V))
      → total_of (insert name vs m) + total (or_nil (lookup name m)) ≡ total_of m + total vs
  unfolding lookup insert
  total_of-insert name vs [] = omega arith
  total_of-insert name vs ((key, us) ∷ rest) = elim (Bool-cases (equal key name)) [
    | inl e ↦ rw e (omega arith)
    | inr e ↦ rw e (omega (arith, total_of-insert name vs rest))
  ]

  pub total_of-append_to :
      (name : Bytes) (v : V) (m : List (Bytes × List V))
      → total_of (append_to name v m) ≡ total_of m + f v
  total_of-append_to name v m = omega (
    arith,
    total_of-insert name (or_nil (lookup name m) ++ (v ∷ [])) m,
    total-append (or_nil (lookup name m)) v,
  )
