-- ===== src/MediaType/TypeText.antt =====
-- The media type itself, as `FormatMediaType` writes it and `ParseMediaType` reads it.
use mime.Base.{
  ℕ, [], ◌∷◌, ◌++◌, false, none, some, All, All-mono, All-append, map, ◌≡◌, ◌≢◌, refl, ap, sym, ◌∙◌,
  arith, ◌==◌, append-nil, take-append, drop_past, map-append,
}
use mime.Base.Bytes.{Bytes, has_prefix, index_byte, index_byte-append, index_byte-none}
use mime.Grammar.Tokens.{IsTokenChar, is_token_complete}
use mime.Grammar.{is_t_special, is_token_char}
use mime.MediaType.Consume.{consume_token}
use mime.MediaType.Errors.{PmtErr, lossy_check}
use mime.MediaType.Format.{format_type}
use mime.MediaType.TokenText.{token-IsAscii, token-IsDense, lower_token}
use mime.MediaType.Tokens.{consume_token-append}
use mime.Runes.Lower.{to_lower_ascii}
use mime.Runes.Strings.{lower_ascii, is_space}
use mime.Runes.Trim.{IsDense}

-- A token, or two with a slash between them.
pub data IsType : Bytes → Type 0 where
  bare : (t : Bytes) → t ≢ [] → All IsTokenChar t → IsType t
  slashed :
      (major sub : Bytes)
      → major ≢ []
      → All IsTokenChar major
      → sub ≢ []
      → All IsTokenChar sub
      → IsType (major ++ (b'/' ∷ sub))

token_char_not_slash : (c : ℕ) → IsTokenChar c → (c == b'/') ≡ false
unfolding is_token_char is_t_special index_byte
token_char_not_slash c h = ground arith

token_char_not_semicolon : (c : ℕ) → IsTokenChar c → (c == b';') ≡ false
unfolding is_token_char is_t_special index_byte
token_char_not_semicolon c h = ground arith

slash_stops : is_token_char b'/' ≡ false
unfolding is_token_char is_t_special index_byte
slash_stops = refl

slash-IsDense : IsDense b'/'
unfolding is_space
slash-IsDense = (omega arith, refl)

no_slash_in : (s : Bytes) → All IsTokenChar s → All (λ c. (c == b'/') ≡ false) s
no_slash_in = All-mono IsTokenChar _ token_char_not_slash

no_semicolon_in : (s : Bytes) → All IsTokenChar s → All (λ c. (c == b';') ≡ false) s
no_semicolon_in = All-mono IsTokenChar _ token_char_not_semicolon

lower_not_nil : (a : Bytes) → a ≢ [] → map lower_ascii a ≢ []
lower_not_nil [] h = h
lower_not_nil (c ∷ a) h = ground arith

pub IsType-lower : {t : Bytes} → IsType t → IsType (map lower_ascii t)
IsType-lower (bare t ne h) = bare (map lower_ascii t) (lower_not_nil t ne) (lower_token t h)
IsType-lower (slashed major sub n h m k) = rw (map-append lower_ascii major (b'/' ∷ sub)) (
    slashed (map lower_ascii major) (map lower_ascii sub) (lower_not_nil major n)
      (lower_token major h) (lower_not_nil sub m) (lower_token sub k))

pub IsType-IsDense : {t : Bytes} → IsType t → All IsDense t
IsType-IsDense (bare t ne h) = token-IsDense t h
IsType-IsDense (slashed major sub n h m k) =
    All-append IsDense major (b'/' ∷ sub) (token-IsDense major h)
      (slash-IsDense, token-IsDense sub k)

pub IsType-no_semicolon : {t : Bytes} → IsType t → All (λ c. (c == b';') ≡ false) t
IsType-no_semicolon (bare t ne h) = no_semicolon_in t h
IsType-no_semicolon (slashed major sub n h m k) =
    All-append _ major (b'/' ∷ sub) (no_semicolon_in major h) (refl, no_semicolon_in sub k)

consume-All : (t : Bytes) → All IsTokenChar t → consume_token t ≡ (t, [])
consume-All t h = ap consume_token (sym (append-nil t)) ∙ consume_token-append t [] h tt

lossy_check_bare :
    (p : PmtErr) (c : ℕ) (t : Bytes) (b : ℕ) (v : Bytes)
    → All IsTokenChar (c ∷ t)
    → lossy_check p (c ∷ t) (b ∷ v) ≡ (p, c ∷ t, none)
unfolding lossy_check
lossy_check_bare p c t b v h = rw (consume-All (c ∷ t) h)

lossy_check_slashed :
    (p : PmtErr) (c : ℕ) (major : Bytes) (d : ℕ) (sub : Bytes) (b : ℕ) (v : Bytes)
    → All IsTokenChar (c ∷ major)
    → All IsTokenChar (d ∷ sub)
    → lossy_check p (c ∷ (major ++ (b'/' ∷ (d ∷ sub)))) (b ∷ v)
      ≡ (p, c ∷ (major ++ (b'/' ∷ (d ∷ sub))), none)
unfolding lossy_check has_prefix
lossy_check_slashed p c major d sub b v h k =
    rw (consume_token-append (c ∷ major) (b'/' ∷ (d ∷ sub)) h slash_stops, consume-All (d ∷ sub) k)

-- A well-formed media type is taken as it is, with no error noted.
pub lossy_check-IsType :
    (p : PmtErr) {t : Bytes} (v : Bytes) → IsType t → v ≢ [] → lossy_check p t v ≡ (p, t, none)
lossy_check-IsType p [] i ne = absurd (ne refl)
lossy_check-IsType p (b ∷ v) (bare [] n h) ne = absurd (n refl)
lossy_check-IsType p (b ∷ v) (bare (c ∷ t) n h) ne = lossy_check_bare p c t b v h
lossy_check-IsType p (b ∷ v) (slashed [] sub n h m k) ne = absurd (n refl)
lossy_check-IsType p (b ∷ v) (slashed (c ∷ major) [] n h m k) ne = absurd (m refl)
lossy_check-IsType p (b ∷ v) (slashed (c ∷ major) (d ∷ sub) n h m k) ne =
    lossy_check_slashed p c major d sub b v h k

module _ (unicode_lower : ℕ → ℕ) where
  pub format_type-IsType :
      {t : Bytes} → IsType t → format_type unicode_lower t ≡ some (map lower_ascii t)
  unfolding format_type
  format_type-IsType (bare t n h) =
      rw (index_byte-none t b'/' (no_slash_in t h), format_type, is_token_complete t n h)
        (ap some (to_lower_ascii unicode_lower t (token-IsAscii t h)))
  format_type-IsType (slashed major sub n h m k) =
      let lower_major = to_lower_ascii unicode_lower major (token-IsAscii major h) in
      let lower_sub = to_lower_ascii unicode_lower sub (token-IsAscii sub k) in
      rw
        (
          index_byte-append major b'/' sub (no_slash_in major h),
          format_type,
          take-append major (b'/' ∷ sub),
          drop_past major b'/' sub,
          is_token_complete major n h,
          is_token_complete sub m k,
          lower_major,
          lower_sub,
        )
        (ap some (sym (map-append lower_ascii major (b'/' ∷ sub))))
