-- ===== src/MediaType/Order.antt =====
-- mediatype.go: `FormatMediaType` sorts the attributes, so that the order of a Go map does not show.
use mathlib.Core.List.{Permᴰ, Perm}
use mathlib.Core.List.Permᴰ
use mathlib.Core.List.Permᴰ.{nil, cons, swap, trans}
use mathlib.Core.Logic.{∥∥₁_elim}
use mime.Grammar.{is_token}
use mime.Runes.Strings.{to_lower}
use mime.Base.Dict.{lookup, keys}
use mime.Base.{
  ℕ, List, [], ◌∷◌, ◌++◌, not, true, false, Option, none, some, if◌then◌else◌, ◌≡◌, refl, ap, sym,
  subst, ◌∙◌, arith,
}
use mime.Base.Bytes.{Bytes, equal, equal_iff}
use mime.MediaType.Format.{
  string_le, insert_sorted, sort_strings, append_to, format_param, format_params, format_media_type,
  format_type, or_empty, format_value,
}

string_le-total : (s t : Bytes) → string_le s t ≡ false → string_le t s ≡ true
unfolding string_le
string_le-total [] t h = cc
string_le-total (x ∷ s) [] h = refl
string_le-total (x ∷ s) (y ∷ t) h = ground (arith, string_le-total s t)

string_le-antisym : (s t : Bytes) → string_le s t ≡ true → string_le t s ≡ true → s ≡ t
unfolding string_le
string_le-antisym [] [] h k = refl
string_le-antisym [] (y ∷ t) h k = cc
string_le-antisym (x ∷ s) [] h k = cc
string_le-antisym (x ∷ s) (y ∷ t) h k = ground (arith, string_le-antisym s t)

string_le_trans :
    (s t u : Bytes) → string_le s t ≡ true → string_le t u ≡ true → string_le s u ≡ true
unfolding string_le
string_le_trans [] t u h k = refl
string_le_trans (x ∷ s) [] u h k = cc
string_le_trans (x ∷ s) (y ∷ t) [] h k = cc
string_le_trans (x ∷ s) (y ∷ t) (z ∷ u) h k = ground (arith, string_le_trans s t u)

insert_sorted_comm :
    (a b : Bytes) (l : List Bytes)
    → insert_sorted a (insert_sorted b l) ≡ insert_sorted b (insert_sorted a l)
unfolding insert_sorted
insert_sorted_comm a b [] = ground (arith, string_le-total a b, string_le-antisym a b)
insert_sorted_comm a b (c ∷ l) = ground (
  arith,
  insert_sorted_comm a b l,
  string_le-total a b,
  string_le-antisym a b,
  string_le_trans a b c,
  string_le_trans b a c,
)

sort_strings-perm : {l m : List Bytes} → Permᴰ l m → sort_strings l ≡ sort_strings m
unfolding sort_strings
sort_strings-perm nil = refl
sort_strings-perm (cons {b = b} {l₁ = l} e p) =
    ap (λ c. insert_sorted c (sort_strings l)) e ∙ ap (insert_sorted b) (sort_strings-perm p)
sort_strings-perm (swap {a} {b} {a'} {b'} {l} e f) =
    insert_sorted_comm a b (sort_strings l)
    ∙ ap (λ c. insert_sorted b (insert_sorted c (sort_strings l))) e
    ∙ ap (λ c. insert_sorted c (insert_sorted b' (sort_strings l))) f
sort_strings-perm (trans p q) = sort_strings-perm p ∙ sort_strings-perm q

-- No key stands twice, as in a Go map.
abbrev pub IsMap {ℓ} : {V : Type ℓ} → List (Bytes × V) → Type ℓ
IsMap [] = Unit
IsMap ((key, v) ∷ m) = (lookup key m ≡ none) × IsMap m

-- two orders of one map
abbrev Alike : List (Bytes × Bytes) → List (Bytes × Bytes) → Type 0
Alike l m = IsMap m × ((key : Bytes) → lookup key l ≡ lookup key m)

swap-Alike :
    (a b : Bytes × Bytes) (l : List (Bytes × Bytes))
    → IsMap (a ∷ b ∷ l)
    → Alike (a ∷ b ∷ l) (b ∷ a ∷ l)
unfolding lookup
swap-Alike (a, v) (b, w) l (h, (k, r)) =
    let ab = equal_iff a b in
    let ba = equal_iff b a in
    (
      (ground (arith, ab, ba, h, k), (ground (arith, ab, ba, h, k), r)),
      λ key. ground (arith, ab, ba, equal_iff a key, equal_iff b key, h),
    )

cons-Alike :
    (a : Bytes × Bytes) (l m : List (Bytes × Bytes))
    → IsMap (a ∷ l)
    → Alike l m
    → Alike (a ∷ l) (a ∷ m)
unfolding lookup
cons-Alike (a, v) l m (h, r) (k, f) =
    ((sym (f a) ∙ h, k), λ key. ap (λ o. if equal a key then some v else o) (f key))

perm-Alike : {l m : List (Bytes × Bytes)} → Permᴰ l m → IsMap l → Alike l m
perm-Alike nil h = (tt, λ key. refl)
perm-Alike (cons {a} {b} {l₁} {l₂} e p) h =
    subst (λ c. Alike (a ∷ l₁) (c ∷ l₂)) e (cons-Alike a l₁ l₂ h (perm-Alike p h.1))
perm-Alike (swap {a} {b} {a'} {b'} {l} e f) h =
    subst (λ c. Alike (a ∷ b ∷ l) (c ∷ b' ∷ l)) f
      (subst (λ c. Alike (a ∷ b ∷ l) (b ∷ c ∷ l)) e (swap-Alike a b l h))
perm-Alike (trans p q) h =
    let (k, f) = perm-Alike p h in let (k', g) = perm-Alike q k in (k', λ key. f key ∙ g key)

module _ (unicode_lower : ℕ → ℕ) (l m : List (Bytes × Bytes))
    (alike : (key : Bytes) → lookup key l ≡ lookup key m) where
  format_param-alike : (a : Bytes) → format_param unicode_lower l a ≡ format_param unicode_lower m a
  unfolding format_param
  format_param-alike a =
      ap
        (λ o.
          if not (is_token a)
          then none
          else append_to (b';' ∷ b' ' ∷ (to_lower unicode_lower a ++ b'=' ∷ []))
              (format_value (or_empty o)))
        (alike a)

  -- the other rounds, behind a round
  other_rounds : List Bytes → List (Bytes × Bytes) → Option Bytes → Option Bytes
  other_rounds attrs param none = none
  other_rounds attrs param (some out) = format_params unicode_lower param attrs out

  others :
      (attrs : List Bytes) (o : Option Bytes)
      → ((out : Bytes)
          → format_params unicode_lower l attrs out ≡ format_params unicode_lower m attrs out)
      → other_rounds attrs l o ≡ other_rounds attrs m o
  unfolding other_rounds
  others attrs none h = refl
  others attrs (some out) h = h out

  format_params-alike :
      (attrs : List Bytes) (out : Bytes)
      → format_params unicode_lower l attrs out ≡ format_params unicode_lower m attrs out
  unfolding format_params other_rounds
  format_params-alike [] out = refl
  format_params-alike (a ∷ attrs) out =
      ap (λ o. other_rounds attrs l (append_to out o)) (format_param-alike a)
      ∙ others attrs (append_to out (format_param unicode_lower m a)) (format_params-alike attrs)

behind_type :
    (o : Option Bytes) (f g : Bytes → Bytes)
    → ((b : Bytes) → f b ≡ g b)
    → elim o as (λ _. Bytes) [ none ↦ [] | some b ↦ f b ]
      ≡ elim o as (λ _. Bytes) [ none ↦ [] | some b ↦ g b ]
behind_type none f g h = refl
behind_type (some b) f g h = h b

-- for one order, as a path
format_perm :
    (unicode_lower : ℕ → ℕ) (t : Bytes) (l m : List (Bytes × Bytes))
    → IsMap l
    → Permᴰ l m
    → format_media_type unicode_lower t l ≡ format_media_type unicode_lower t m
unfolding format_media_type
format_perm unicode_lower t l m h p =
    let same = (perm-Alike p h).1 in
    let sorted = sort_strings-perm (Permᴰ.map (λ e. e.0) p) in
    behind_type (format_type unicode_lower t) _ _ (λ b.
      ap (λ attrs. or_empty (format_params unicode_lower l attrs b)) sorted
      ∙ ap or_empty (format_params-alike unicode_lower l m same (sort_strings (keys m)) b))

Bytes-set : IsSet Bytes
Bytes-set = hlevel

-- What `FormatMediaType` writes does not depend on the order in which the map of the parameters is
-- gone through, for a map in which no key stands twice.
pub format_media_type-perm :
    (unicode_lower : ℕ → ℕ) (t : Bytes) (l m : List (Bytes × Bytes))
    → IsMap l
    → Perm l m
    → format_media_type unicode_lower t l ≡ format_media_type unicode_lower t m
format_media_type-perm unicode_lower t l m h p =
    ∥∥₁_elim p (Bytes-set _ _) (format_perm unicode_lower t l m h)
