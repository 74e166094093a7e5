-- ===== src/MediaType/Sorted.antt =====
-- What sorting keeps of a list of attribute names.
use mime.Base.{List, [], ◌∷◌, All, ◌≢◌, sym, Bool-cases, inl, inr}
use mime.Base.Bytes.{Bytes}
use mime.MediaType.Format.{string_le, insert_sorted, sort_strings}
use mime.MediaType.ParamLoop.{lower_name, Distinct}

module _ {ℓ} (P : Bytes → Type ℓ) where
  insert_sorted-All : (a : Bytes) (l : List Bytes) → P a → All P l → All P (insert_sorted a l)
  unfolding insert_sorted
  insert_sorted-All a [] p h = (p, tt)
  insert_sorted-All a (b ∷ l) p (q, h) = elim (Bool-cases (string_le a b)) [
    | inl e ↦ rw e (p, (q, h))
    | inr e ↦ rw e (q, insert_sorted-All a l p h)
  ]

  pub sort_strings-All : (l : List Bytes) → All P l → All P (sort_strings l)
  unfolding sort_strings
  sort_strings-All [] h = tt
  sort_strings-All (a ∷ l) (p, h) = insert_sorted-All a (sort_strings l) p (sort_strings-All l h)

abbrev Differs : Bytes → Bytes → Type 0
Differs a b = lower_name a ≢ lower_name b

insert_sorted-Distinct :
    (a : Bytes) (l : List Bytes) → All (Differs a) l → Distinct l → Distinct (insert_sorted a l)
unfolding insert_sorted
insert_sorted-Distinct a [] h d = (tt, tt)
insert_sorted-Distinct a (b ∷ l) (hb, h) (db, d) = elim (Bool-cases (string_le a b)) [
  | inl e ↦ rw e ((hb, h), (db, d))
  | inr e ↦
      rw e (insert_sorted-All (Differs b) a l (λ p. hb (sym p)) db, insert_sorted-Distinct a l h d)
]

pub sort_strings-Distinct : (l : List Bytes) → Distinct l → Distinct (sort_strings l)
unfolding sort_strings
sort_strings-Distinct [] d = tt
sort_strings-Distinct (a ∷ l) (h, d) =
    insert_sorted-Distinct a (sort_strings l) (sort_strings-All (Differs a) l h)
      (sort_strings-Distinct l d)
