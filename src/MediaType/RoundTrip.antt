-- ===== src/MediaType/RoundTrip.antt =====
-- `ParseMediaType` reads back what `FormatMediaType` writes.
use mathlib.Core.List.{cons-ne-nil}
use mime.Base.{
  ℕ, ◌<◌, ◌≤◌, List, [], ◌∷◌, ◌++◌, false, none, some, All, All-mono, map, length, ◌≡◌, ◌≢◌, refl,
  ap, ◌∙◌, arith, ◌==◌, append-nil, append_assoc, take-append, drop-append, length-append,
}
use mime.Base.Bytes.{Bytes, IsAscii, index_byte-append, index_byte-none}
use mime.Base.Dict.{lookup, keys}
use mime.Grammar.Tokens.{is_token_complete}
use mime.MediaType.Errors.{no_errors}
use mime.MediaType.Format.{or_empty, format_param, format_params, sort_strings, format_media_type}
use mime.MediaType.ParamLoop.{
  IsParam, lower_name, Distinct, texts, lowered, names, Fresh, param_loop-texts,
}
use mime.MediaType.ParamText.{param_text, format_value-written}
use mime.MediaType.Parse.{
  Params, break, start, type_end, stitch, finish, parse_params, parse_media_type,
}
use mime.MediaType.Quoted.{IsQuotable}
use mime.MediaType.Sorted.{sort_strings-All, sort_strings-Distinct}
use mime.MediaType.TokenText.{token-IsAscii}
use mime.MediaType.TypeText.{
  bare, slashed, IsType, IsType-lower, IsType-IsDense, IsType-no_semicolon, lossy_check-IsType,
  format_type-IsType,
}
use mime.Runes.Lower.{to_lower_ascii, map_lower_idem}
use mime.Runes.Strings.{lower_ascii, to_lower}
use mime.Runes.Trim.{IsDense, trim_space-All}

-- the value of an attribute in the map
abbrev pub value_of : Params → Bytes → Bytes
value_of m a = or_empty (lookup a m)

abbrev pub IsParamOf : Params → Bytes → Type 0
IsParamOf m a = IsParam (a, value_of m a)

abbrev pairs : Params → List Bytes → Params
pairs m [] = []
pairs m (a ∷ attrs) = (a, value_of m a) ∷ pairs m attrs

-- the parameters bs they are read back, in the order of the names
abbrev pub read_back : Params → List Bytes → Params
read_back m [] = []
read_back m (a ∷ attrs) = (lower_name a, value_of m a) ∷ read_back m attrs

lowered-pairs : (m : Params) (attrs : List Bytes) → lowered (pairs m attrs) ≡ read_back m attrs
lowered-pairs m [] = refl
lowered-pairs m (a ∷ attrs) = ap (◌∷◌ (lower_name a, value_of m a)) (lowered-pairs m attrs)

names-pairs : (m : Params) (attrs : List Bytes) → names (pairs m attrs) ≡ attrs
names-pairs m [] = refl
names-pairs m (a ∷ attrs) = ap (◌∷◌ a) (names-pairs m attrs)

pairs-All :
    (m : Params) (attrs : List Bytes) → All (IsParamOf m) attrs → All IsParam (pairs m attrs)
pairs-All m [] h = tt
pairs-All m (a ∷ attrs) (ha, h) = (ha, pairs-All m attrs h)

quotable_ascii : (s : Bytes) → All IsQuotable s → All (λ b. b < 0x80) s
quotable_ascii = All-mono IsQuotable _ (λ b h. h.0)

length-texts : (ps : Params) → length ps ≤ length (texts ps)
length-texts [] = omega arith
length-texts ((a, v) ∷ ps) =
    omega (arith, length-texts ps, length-append (param_text a v) (texts ps))

Fresh-nil : (bs : List Bytes) → Fresh [] bs
unfolding lookup
Fresh-nil [] = tt
Fresh-nil (a ∷ bs) = (refl, Fresh-nil bs)

type_end_text :
    (t : Bytes) (ps : Params)
    → All (λ c. (c == b';') ≡ false) t
    → type_end (t ++ texts ps) ≡ length t
type_end_text t [] h = ap type_end (append-nil t) ∙ rw (index_byte-none t b';' h, type_end)
type_end_text t ((a, v) ∷ ps) h = rw (index_byte-append t b';' _ h, type_end)

module _ (unicode_lower : ℕ → ℕ) where
  format_param_text :
      (m : Params) (a : Bytes)
      → IsParamOf m a
      → format_param unicode_lower m a ≡ some (param_text a (value_of m a))
  unfolding format_param
  format_param_text m a ((n, t, star), (w, q)) =
      rw
        (
          format_value-written (value_of m a) (quotable_ascii _ q),
          to_lower_ascii unicode_lower a (token-IsAscii a t),
          is_token_complete a n t,
        )
        (ap (λ s. some (b';' ∷ b' ' ∷ s)) (append_assoc (lower_name a) (b'=' ∷ []) _))

  format_params-texts :
      (m : Params) (attrs : List Bytes) (out : Bytes)
      → All (IsParamOf m) attrs
      → format_params unicode_lower m attrs out ≡ some (out ++ texts (pairs m attrs))
  unfolding format_params
  format_params-texts m [] out h = rw append-nil
  format_params-texts m (a ∷ attrs) out (ha, h) =
      rw (format_param_text m a ha, format_params)
        (format_params-texts m attrs (out ++ param_text a (value_of m a)) h
          ∙ ap some (append_assoc out _ _))

  pub format_media_type_text :
      {t : Bytes} (m : Params)
      → IsType t
      → All (IsParamOf m) (keys m)
      → format_media_type unicode_lower t m
        ≡ map lower_ascii t ++ texts (pairs m (sort_strings (keys m)))
  unfolding format_media_type
  format_media_type_text m i h = rw (
    format_type-IsType unicode_lower i,
    format_params-texts m (sort_strings (keys m)) _ (sort_strings-All (IsParamOf m) _ h),
    format_media_type,
  )

  parse_text :
      {t : Bytes} (ps : Params)
      → IsType t
      → to_lower unicode_lower t ≡ t
      → t ++ texts ps ≢ []
      → All IsParam ps
      → Distinct (names ps)
      → parse_media_type unicode_lower (t ++ texts ps)
        ≡ some (record { media_type = t; params = some (lowered ps); error = none })
  unfolding parse_media_type parse_params
  parse_text {t} ps i low ne h d =
      let enough : length ps ≤ length (t ++ texts ps) =
        omega (arith, length-texts ps, length-append t (texts ps)) in
      let loop =
        param_loop-texts unicode_lower t ps (length (t ++ texts ps)) (start no_errors none) enough h
          d (Fresh-nil (names ps)) in
      let trimmed = trim_space-All t (IsType-IsDense i) in
      let checked = lossy_check-IsType no_errors (t ++ texts ps) i ne in
      let finished : finish unicode_lower t
            (break (record (start no_errors none) { params = lowered ps }))
          ≡ some (record { media_type = t; params = some (lowered ps); error = none }) =
        unfold finish stitch in refl in
      rw
        (
          type_end_text t ps (IsType-no_semicolon i),
          take-append t (texts ps),
          low,
          trimmed,
          checked,
          drop-append t (texts ps),
          parse_media_type,
        )
        (rw (loop, parse_params) finished)

abbrev pub lower_type : Bytes → Bytes
lower_type = map lower_ascii

dense-IsAscii : (s : Bytes) → All IsDense s → All IsAscii s
dense-IsAscii = All-mono IsDense IsAscii (λ c h. h.0)

IsType-not_nil : {t : Bytes} (s : Bytes) → IsType t → t ++ s ≢ []
IsType-not_nil s (bare [] n h) = absurd (n refl)
IsType-not_nil s (bare (c ∷ t) n h) = cons-ne-nil c (t ++ s)
IsType-not_nil s (slashed [] sub n h m k) = absurd (n refl)
IsType-not_nil s (slashed (c ∷ major) sub n h m k) = cons-ne-nil c _

-- A media type and a map of parameters that `FormatMediaType` writes is read back by
-- `ParseMediaType` with no error: the type and the names in lower case, the values as they are.
-- The type is a token or two with a slash between, the names are tokens with no `*` that differ
-- also in lower case, and the values are ASCII, not empty and with no line break.
pub parse-format :
    (unicode_lower : ℕ → ℕ) {t : Bytes} (m : Params)
    → IsType t
    → All (IsParamOf m) (keys m)
    → Distinct (keys m)
    → parse_media_type unicode_lower (format_media_type unicode_lower t m)
      ≡ some (record {
        media_type = lower_type t;
        params = some (read_back m (sort_strings (keys m)));
        error = none;
      })
parse-format unicode_lower {t} m i h d =
    let attrs = sort_strings (keys m) in
    let j = IsType-lower i in
    let low = to_lower_ascii unicode_lower (lower_type t) (dense-IsAscii _ (IsType-IsDense j)) in
    let ps = pairs m attrs in
    let parsed =
      parse_text unicode_lower ps j (low ∙ map_lower_idem t) (IsType-not_nil (texts ps) j)
        (pairs-All m attrs (sort_strings-All (IsParamOf m) _ h))
        (rw (names-pairs m attrs) (sort_strings-Distinct _ d)) in
    ap (parse_media_type unicode_lower) (format_media_type_text unicode_lower m i h)
    ∙ parsed
    ∙ rw (lowered-pairs m attrs)
