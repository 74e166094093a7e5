-- ===== src/Multipart/Search.antt =====
-- multipart/multipart.go: `bytes.Index` and `bytes.HasPrefix` in a window on a text.
use mathlib.Core.Option
use mime.Base.{
  ℕ, zero, suc, ◌+◌, ◌-◌, ◌<◌, ◌≤◌, [], ◌∷◌, ◌++◌, Bool, true, false, ◌&&◌, Option, none, some, ltb,
  leb, ◌==◌, take, drop, length, ◌≡◌, ◌≢◌, ◌⊎◌, refl, ap, sym, ◌∙◌, inl, inr, arith, Bool-cases,
  ltb→lt, ltb-false→le,
}
use mime.Base.Bytes.{Bytes, has_prefix, index}

-- A prefix shows in a window that is long enough, and in no other.
has_prefix-take :
    (m : ℕ) (s p : Bytes) → has_prefix (take m s) p ≡ (has_prefix s p && leb (length p) m)
unfolding has_prefix
has_prefix-take zero s [] = ground arith
has_prefix-take zero [] (c ∷ p) = ground arith
has_prefix-take zero (b ∷ s) (c ∷ p) = ground arith
has_prefix-take (suc m) [] [] = ground arith
has_prefix-take (suc m) [] (c ∷ p) = ground arith
has_prefix-take (suc m) (b ∷ s) [] = ground arith
has_prefix-take (suc m) (b ∷ s) (c ∷ p) = ground (arith, has_prefix-take m s p)

map-suc-some :
    (o : Option ℕ) (n : ℕ) → Option.map suc o ≡ some n → (k : ℕ) × (n ≡ suc k) × (o ≡ some k)
map-suc-some none n e = cc
map-suc-some (some k) n e = (k, cc, refl)

-- Where a separator that is not empty is found: in front, or in the rest.
index_cons :
    (b : ℕ) (s sep : Bytes) (n : ℕ)
    → index (b ∷ s) sep ≡ some n
    → ((n ≡ 0) × (has_prefix (b ∷ s) sep ≡ true))
      ⊎ ((k : ℕ) × (n ≡ suc k) × (has_prefix (b ∷ s) sep ≡ false) × (index s sep ≡ some k))
unfolding index
index_cons b s sep n e = elim (Bool-cases (has_prefix (b ∷ s) sep)) [
  | inl h ↦ inl (ground arith, h)
  | inr h ↦
      let (k, f, g) = map-suc-some (index s sep) n (sym (index_miss b s sep h) ∙ e) in
      inr (k, f, h, g)
]
  where
    index_miss :
        (b : ℕ) (s sep : Bytes)
        → has_prefix (b ∷ s) sep ≡ false
        → index (b ∷ s) sep ≡ Option.map suc (index s sep)
    index_miss b s sep h = rw h refl

no_index_nil : (c : ℕ) (sep : Bytes) (n : ℕ) → index [] (c ∷ sep) ≡ some n → ⊥
unfolding index has_prefix
no_index_nil c sep n e = cc

has_prefix_short : (s p : Bytes) → length s < length p → has_prefix s p ≡ false
unfolding has_prefix
has_prefix_short [] [] h = absurd (omega arith)
has_prefix_short [] (y ∷ p) h = refl
has_prefix_short (x ∷ s) [] h = absurd (omega arith)
has_prefix_short (x ∷ s) (y ∷ p) h = ground (arith, has_prefix_short s p)

length-take : (m : ℕ) (s : Bytes) → length (take m s) ≤ m
length-take zero s = omega arith
length-take (suc m) [] = omega arith
length-take (suc m) (b ∷ s) = omega (arith, length-take m s)

module _ (c : ℕ) (sep : Bytes) where
  -- A text that is shorter than the separator does not have it.
  index_short : (s : Bytes) → length s < length (c ∷ sep) → index s (c ∷ sep) ≡ none
  unfolding index
  index_short [] h = unfold has_prefix in refl
  index_short (b ∷ s) h =
      rw (has_prefix_short (b ∷ s) (c ∷ sep) h, index_short s (omega arith)) refl

  -- A separator that is found within the window is found there by it.
  pub index-take :
      (m n : ℕ) (s : Bytes)
      → index s (c ∷ sep) ≡ some n
      → n + length (c ∷ sep) ≤ m
      → index (take m s) (c ∷ sep) ≡ some n
  unfolding index
  index-take zero n s e l = absurd (omega arith)
  index-take (suc m) n [] e l = absurd (no_index_nil c sep n e)
  index-take (suc m) n (b ∷ s) e l = elim (index_cons b s (c ∷ sep) n e) [
    | inl (z, h) ↦ rw (has_prefix-take (suc m) (b ∷ s) (c ∷ sep), h) (ground arith)
    | inr (k, f, h, g) ↦
        rw (has_prefix-take (suc m) (b ∷ s) (c ∷ sep), h, index-take m k s g (omega arith))
          (ap some (sym f))
  ]

  -- One that the window cuts, or that stands behind it, is not found.
  pub index-take-none :
      (m n : ℕ) (s : Bytes)
      → index s (c ∷ sep) ≡ some n
      → m < n + length (c ∷ sep)
      → index (take m s) (c ∷ sep) ≡ none
  unfolding index
  index-take-none zero n s e l = unfold has_prefix in refl
  index-take-none (suc m) n [] e l = absurd (no_index_nil c sep n e)
  index-take-none (suc m) n (b ∷ s) e l = elim (index_cons b s (c ∷ sep) n e) [
    | inl (z, h) ↦
        rw (has_prefix-take (suc m) (b ∷ s) (c ∷ sep), h)
          (ground (arith, index_short (take m s) (omega (arith, length-take m s))))
    | inr (k, f, h, g) ↦
        rw (has_prefix-take (suc m) (b ∷ s) (c ∷ sep), h, index-take-none m k s g (omega arith))
          refl
  ]

  pub index-drop :
      (k n : ℕ) (s : Bytes)
      → index s (c ∷ sep) ≡ some n
      → k ≤ n
      → index (drop k s) (c ∷ sep) ≡ some (n - k)
  index-drop zero n s e l = e ∙ ap some (omega arith)
  index-drop (suc k) n [] e l = absurd (no_index_nil c sep n e)
  index-drop (suc k) n (b ∷ s) e l = elim (index_cons b s (c ∷ sep) n e) [
    | inl (z, h) ↦ absurd (omega arith)
    | inr (j, f, h, g) ↦ index-drop k j s g (omega arith) ∙ ap some (omega arith)
  ]

-- The same for any separator that is not empty.
pub seen :
    (m n : ℕ) (s sep : Bytes)
    → sep ≢ []
    → index s sep ≡ some n
    → n + length sep ≤ m
    → index (take m s) sep ≡ some n
seen m n s [] ne e l = absurd (ne refl)
seen m n s (c ∷ sep) ne e l = index-take c sep m n s e l

pub not_seen :
    (m n : ℕ) (s sep : Bytes)
    → sep ≢ []
    → index s sep ≡ some n
    → m < n + length sep
    → index (take m s) sep ≡ none
not_seen m n s [] ne e l = absurd (ne refl)
not_seen m n s (c ∷ sep) ne e l = index-take-none c sep m n s e l

pub found_later :
    (k n : ℕ) (s sep : Bytes)
    → sep ≢ []
    → index s sep ≡ some n
    → k ≤ n
    → index (drop k s) sep ≡ some (n - k)
found_later k n s [] ne e l = absurd (ne refl)
found_later k n s (c ∷ sep) ne e l = index-drop c sep k n s e l

pub length-take_full : (m : ℕ) (s : Bytes) → m ≤ length s → length (take m s) ≡ m
length-take_full zero s h = refl
length-take_full (suc m) [] h = absurd (omega arith)
length-take_full (suc m) (b ∷ s) h = ap suc (length-take_full m s (omega arith))

pub drop-take :
    (m : ℕ) (p s : Bytes) → length p ≤ m → drop (length p) (take m (p ++ s)) ≡ take (m - length p) s
drop-take m [] s h = ap (λ n. take n s) (omega arith)
drop-take zero (b ∷ p) s h = absurd (omega arith)
drop-take (suc m) (b ∷ p) s h = drop-take m p s (omega arith) ∙ ap (λ n. take n s) (omega arith)

pub drop-append_within : (n : ℕ) (p s : Bytes) → n ≤ length p → drop n (p ++ s) ≡ drop n p ++ s
drop-append_within zero p s h = refl
drop-append_within (suc n) [] s h = absurd (omega arith)
drop-append_within (suc n) (b ∷ p) s h = drop-append_within n p s (omega arith)

and_later : (a x y : Bool) → (x ≡ false → y ≡ false) → (a && x) ≡ false → (a && y) ≡ false
and_later true x y f h = f h
and_later false x y f h = refl

pub has_prefix-append_long :
    (s t p : Bytes) → length p ≤ length s → has_prefix (s ++ t) p ≡ has_prefix s p
unfolding has_prefix
has_prefix-append_long [] t [] h = refl
has_prefix-append_long [] t (c ∷ p) h = absurd (omega arith)
has_prefix-append_long (b ∷ s) t [] h = refl
has_prefix-append_long (b ∷ s) t (c ∷ p) h =
    ap (λ r. b == c && r) (has_prefix-append_long s t p (omega arith))

pub has_prefix-take-false :
    (m : ℕ) (s p : Bytes) → has_prefix s p ≡ false → has_prefix (take m s) p ≡ false
unfolding has_prefix
has_prefix-take-false m s [] h = cc
has_prefix-take-false zero s (c ∷ p) h = refl
has_prefix-take-false (suc m) [] (c ∷ p) h = refl
has_prefix-take-false (suc m) (b ∷ s) (c ∷ p) h =
    and_later (b == c) (has_prefix s p) (has_prefix (take m s) p) (has_prefix-take-false m s p) h

pub not_longer : (s p q : Bytes) → has_prefix s p ≡ false → has_prefix s (p ++ q) ≡ false
unfolding has_prefix
not_longer s [] q h = cc
not_longer [] (c ∷ p) q h = refl
not_longer (b ∷ s) (c ∷ p) q h =
    and_later (b == c) (has_prefix s p) (has_prefix s (p ++ q)) (not_longer s p q) h

module _ (c : ℕ) (sep : Bytes) where
  index_fits : (n : ℕ) (s : Bytes) → index s (c ∷ sep) ≡ some n → length (c ∷ sep) ≤ length s
  index_fits n s e = elim (Bool-cases (ltb (length s) (length (c ∷ sep)))) [
    | inl h ↦ cc (index_short c sep s (ltb→lt (length s) (length (c ∷ sep)) h))
    | inr h ↦ ltb-false→le (length s) (length (c ∷ sep)) h
  ]

  -- What stands behind a separator does not change where it is first found.
  pub index_append :
      (n : ℕ) (s t : Bytes) → index s (c ∷ sep) ≡ some n → index (s ++ t) (c ∷ sep) ≡ some n
  unfolding index
  index_append n [] t e = absurd (no_index_nil c sep n e)
  index_append n (b ∷ s) t e = elim (index_cons b s (c ∷ sep) n e) [
    | inl (z, h) ↦
        rw (has_prefix-append_long (b ∷ s) t (c ∷ sep) (index_fits n (b ∷ s) e) ∙ h)
          (ap some (sym z))
    | inr (k, f, h, g) ↦
        rw
          (
            has_prefix-append_long (b ∷ s) t (c ∷ sep) (index_fits n (b ∷ s) e) ∙ h,
            index_append k s t g,
          )
          (ap some (sym f))
  ]
