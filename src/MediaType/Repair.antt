-- ===== src/MediaType/Repair.antt =====
-- mediatype.go: the strict check of a media type, and the repair of one that it refuses.
use mime.Base.{
  ℕ, [], ◌∷◌, ◌++◌, none, some, Option, Bool-cases, All, drop, ◌≡◌, ◌≢◌, ◌↔◌, inl, inr, refl, ap,
  sym, subst, ==_iff, ◌∙◌, ◌==◌, append-nil,
}
use mathlib.Core.List.{cons-ne-nil}
use mime.Base.Bytes.{Bytes, codes, has_prefix}
use mime.Grammar.Tokens.{IsTokenChar, is_token_sound, Split, Split-token}
use mime.Grammar
use mime.MediaType.Consume.{consume_token}
use mime.MediaType.Errors.{
  MediaError, PmtErr, add, no_errors, lossy_check, check_media_type_disposition,
}
use mime.MediaType.Tokens.{consume-Split}
use mime.MediaType.TypeText.{IsType, bare, slashed, lossy_check-IsType}

unknown_token : All IsTokenChar (codes "unknown")
unfolding Grammar.computes
unknown_token = (is_token_sound (codes "unknown") refl).1

with_unknown : (t : Bytes) → t ≢ [] → All IsTokenChar t → IsType (t ++ codes "/unknown")
with_unknown t ne h = slashed t (codes "unknown") ne h (cons-ne-nil _ _) unknown_token

-- What the repair gives, by what the strict check says: the media type itself and no error, or
-- another media type that is well formed and the same error, which is noted.
abbrev pub Repairs :
    PmtErr → Bytes → Option MediaError → PmtErr × Bytes × Option MediaError → Type 0
Repairs p s none r = IsType s × (r ≡ (p, s, none))
Repairs p s (some e) r = (t : Bytes) × IsType t × (r ≡ (add p e, t, some e))

module _ (p : PmtErr) (s : Bytes) (b : ℕ) (v : Bytes) where
  -- By the token behind a slash.
  Repairs-slash :
      (c : ℕ) (t r sub rest' : Bytes)
      → consume_token s ≡ (c ∷ t, b'/' ∷ r)
      → consume_token r ≡ (sub, rest')
      → s ≡ (c ∷ t) ++ (b'/' ∷ r)
      → All IsTokenChar (c ∷ t)
      → r ≡ sub ++ rest'
      → All IsTokenChar sub
      → Repairs p s (check_media_type_disposition s) (lossy_check p s (b ∷ v))
  unfolding check_media_type_disposition lossy_check has_prefix
  Repairs-slash c t r [] rest' e f g h i j =
      rw (e, f) ((c ∷ t) ++ codes "/unknown", with_unknown (c ∷ t) (cons-ne-nil c t) h, refl)
  Repairs-slash c t r (x ∷ sub) (y ∷ rest') e f g h i j =
      rw (e, f)
        (
          (c ∷ t) ++ (b'/' ∷ x ∷ sub),
          slashed (c ∷ t) (x ∷ sub) (cons-ne-nil c t) h (cons-ne-nil x sub) j,
          refl,
        )
  Repairs-slash c t r (x ∷ sub) [] e f g h i j =
      rw (e, f)
        (
          subst IsType (sym whole)
              (slashed (c ∷ t) (x ∷ sub) (cons-ne-nil c t) h (cons-ne-nil x sub) j),
          refl,
        )
    where
      whole : s ≡ (c ∷ t) ++ (b'/' ∷ x ∷ sub)
      whole = g ∙ ap (λ z. (c ∷ t) ++ (b'/' ∷ z)) (i ∙ append-nil (x ∷ sub))

  -- By the token in front, and by the character that follows it.
  Repairs-at :
      (typ rest sub rest' : Bytes)
      → consume_token s ≡ (typ, rest)
      → consume_token (drop 1 rest) ≡ (sub, rest')
      → s ≡ typ ++ rest
      → All IsTokenChar typ
      → drop 1 rest ≡ sub ++ rest'
      → All IsTokenChar sub
      → Repairs p s (check_media_type_disposition s) (lossy_check p s (b ∷ v))
  unfolding check_media_type_disposition lossy_check has_prefix
  Repairs-at [] rest sub rest' e f g h i j =
      rw e (codes "unknown", bare (codes "unknown") (cons-ne-nil _ _) unknown_token, refl)
  Repairs-at (c ∷ t) [] sub rest' e f g h i j =
      rw e (subst IsType (sym whole) (bare (c ∷ t) (cons-ne-nil c t) h), cc whole)
    where
      whole : s ≡ c ∷ t
      whole = g ∙ append-nil (c ∷ t)
  Repairs-at (c ∷ t) (d ∷ r) sub rest' e f g h i j = elim (Bool-cases (d == b'/')) [
    | inl k ↦
        let same = ap (λ z. z ∷ r) ((==_iff d b'/').0 k) in
        Repairs-slash c t r sub rest' (e ∙ ap (λ z. (c ∷ t, z)) same) f
          (g ∙ ap (λ z. (c ∷ t) ++ z) same) h i j
    | inr k ↦
        rw (e, k) ((c ∷ t) ++ codes "/unknown", with_unknown (c ∷ t) (cons-ne-nil c t) h, refl)
  ]

-- For every text and every input that is not empty: where the strict check accepts the text, it is
-- a well-formed media type, and the lossy check takes it as it is, with no error; where the strict
-- check refuses it, the lossy check notes and returns the same error and takes another media type,
-- which is well formed.
pub lossy_check-Repairs :
    (p : PmtErr) (s : Bytes) (b : ℕ) (v : Bytes)
    → Repairs p s (check_media_type_disposition s) (lossy_check p s (b ∷ v))
lossy_check-Repairs p s b v =
    Repairs-at p s b v x.token x.rest y.token y.rest (consume-Split x) (consume-Split y) x.splits
      x.token_chars y.splits y.token_chars
  where
    x : Split s
    x = Split-token s

    y : Split (drop 1 x.rest)
    y = Split-token (drop 1 x.rest)

taken :
    (p : PmtErr) (s : Bytes) (o : Option MediaError) (r : PmtErr × Bytes × Option MediaError)
    → Repairs p s o r
    → o ≡ none
    → IsType s
taken p s none r (i, f) e = i
taken p s (some x) r (t, i, f) e = cc

accepted :
    (p : PmtErr) (s : Bytes) (o : Option MediaError) (r : PmtErr × Bytes × Option MediaError)
    → Repairs p s o r
    → r ≡ (p, s, none)
    → o ≡ none
accepted p s none r h e = refl
accepted p s (some x) r (t, i, f) e = cc

-- The strict check accepts a token, or two tokens with a slash between them, and nothing else.
pub check_media_type_disposition_iff :
    (s : Bytes) → (check_media_type_disposition s ≡ none) ↔ IsType s
check_media_type_disposition_iff s = (
  λ e. taken no_errors s _ _ (lossy_check-Repairs no_errors s 0 []) e,
  λ i.
      accepted no_errors s _ _ (lossy_check-Repairs no_errors s 0 [])
        (lossy_check-IsType no_errors (0 ∷ []) i (cons-ne-nil _ _)),
)
