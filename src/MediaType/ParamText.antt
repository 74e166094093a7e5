-- ===== src/MediaType/ParamText.antt =====
-- One parameter as `FormatMediaType` writes it, and as `consumeMediaParam` reads it.
use mathlib.Core.List.{cons-ne-nil}
use mime.Base.{
  ℕ, [], ◌∷◌, ◌++◌, false, some, All, map, ◌≡◌, ◌≢◌, refl, ◌∙◌, arith, ◌==◌, Bool-cases, inl, inr,
  if◌then◌else◌, append_assoc,
}
use mime.Base.Bytes.{Bytes, IsAscii, has_prefix, index_byte}
use mime.Grammar.Tokens.{IsTokenChar, Stops, is_token_sound}
use mime.Grammar.{is_t_special, is_token_char, is_token}
use mime.MediaType.Consume.{consume_token, consume_value, consume_param_value, consume_media_param}
use mime.MediaType.Format.{format_value}
use mime.MediaType.Quoted.{escaped, IsQuotable, quote_loop-escaped, consume_quoted-escaped}
use mime.MediaType.TokenText.{token-IsAscii, token_char-IsDense, lower_token}
use mime.MediaType.Tokens.{consume_token-append}
use mime.Runes.Lower.{to_lower_ascii, map_lower_idem}
use mime.Runes.Strings.{is_space, lower_ascii, to_lower, trim_left}
use mime.Runes.Trim.{trim_left_dense, trim_left_blank}

-- a value behind the `=`
abbrev pub written : Bytes → Bytes
written value = if is_token value then value else b'"' ∷ (escaped value ++ b'"' ∷ [])

-- A value that comes back: not empty, and ASCII with no line break.
abbrev pub IsWritable : Bytes → Type 0
IsWritable value = (value ≢ []) × All IsQuotable value

format_value_quoted :
    (value : Bytes)
    → All IsAscii value
    → is_token value ≡ false
    → format_value value ≡ some (b'"' ∷ (escaped value ++ b'"' ∷ []))
unfolding format_value
format_value_quoted value h e = rw (e, quote_loop-escaped value [] [] h)

pub format_value-written :
    (value : Bytes) → All IsAscii value → format_value value ≡ some (written value)
format_value-written value h = elim (Bool-cases (is_token value)) [
  | inl e ↦ rw e (unfold format_value in rw e)
  | inr e ↦ rw e (format_value_quoted value h e)
]

token_char_not_quote : (b : ℕ) → IsTokenChar b → (b == b'"') ≡ false
unfolding is_token_char is_t_special index_byte
token_char_not_quote b h = ground arith

consume_value_token :
    (b : ℕ) (s : Bytes) → IsTokenChar b → consume_value (b ∷ s) ≡ consume_token (b ∷ s)
unfolding consume_value
consume_value_token b s h = rw (token_char_not_quote b h)

consume_value_quoted :
    (s rest : Bytes)
    → All IsQuotable s
    → consume_value (b'"' ∷ (escaped s ++ (b'"' ∷ rest))) ≡ (s, rest)
unfolding consume_value
consume_value_quoted s rest h = rw (consume_quoted-escaped s [] rest h)

pub consume_value-written :
    (value rest : Bytes)
    → IsWritable value
    → Stops rest
    → consume_value (written value ++ rest) ≡ (value, rest)
consume_value-written [] rest (ne, h) k = absurd (ne refl)
consume_value-written (b ∷ s) rest (ne, h) k = elim (Bool-cases (is_token (b ∷ s))) [
  | inl e ↦ rw e (
      let t = (is_token_sound (b ∷ s) e).1 in
      consume_value_token b (s ++ rest) t.0 ∙ consume_token-append (b ∷ s) rest t k)
  | inr e ↦ rw e (rw append_assoc (consume_value_quoted (b ∷ s) rest h))
]

-- `written` begins with no space
trim_written :
    (value rest : Bytes)
    → IsWritable value
    → trim_left (written value ++ rest) ≡ written value ++ rest
trim_written [] rest (ne, h) = absurd (ne refl)
trim_written (b ∷ s) rest (ne, h) = elim (Bool-cases (is_token (b ∷ s))) [
  | inl e ↦
      rw e (trim_left_dense b (s ++ rest) (token_char-IsDense b ((is_token_sound (b ∷ s) e).1).0))
  | inr e ↦ rw e (trim_left_dense b'"' _ (omega arith, unfold is_space in refl))
]

abbrev lower : Bytes → Bytes
lower = map lower_ascii

-- what the loop of `FormatMediaType` writes for one attribute
abbrev pub param_text : Bytes → Bytes → Bytes
param_text a value = b';' ∷ b' ' ∷ (map lower_ascii a ++ (b'=' ∷ written value))

consume_param_value-written :
    (v param value rest : Bytes)
    → IsWritable value
    → Stops rest
    → consume_param_value v param (b'=' ∷ (written value ++ rest)) ≡ (param, value, rest)
unfolding consume_param_value has_prefix
consume_param_value-written v param [] rest (ne, _) k = absurd (ne refl)
consume_param_value-written v param (b ∷ s) rest w k =
    rw (trim_written (b ∷ s) rest w, consume_value-written (b ∷ s) rest w k)

-- the start of a parameter, up to its name
trim_semicolon : (s : Bytes) → trim_left (b';' ∷ s) ≡ b';' ∷ s
trim_semicolon s = trim_left_dense b';' s (omega arith, unfold is_space in refl)

trim_equals : (s : Bytes) → trim_left (b'=' ∷ s) ≡ b'=' ∷ s
trim_equals s = trim_left_dense b'=' s (omega arith, unfold is_space in refl)

trim_name : (a s : Bytes) → a ≢ [] → All IsTokenChar a → trim_left (b' ' ∷ (a ++ s)) ≡ a ++ s
trim_name [] s ne t = absurd (ne refl)
trim_name (c ∷ a) s ne t =
    trim_left_blank b' ' (c ∷ (a ++ s)) (omega arith) (unfold is_space in refl)
    ∙ trim_left_dense c (a ++ s) (token_char-IsDense c t.0)

equals_stops : is_token_char b'=' ≡ false
unfolding is_token_char is_t_special index_byte
equals_stops = refl

module _ (unicode_lower : ℕ → ℕ) where
  consume_name :
      (c : ℕ) (a value rest : Bytes)
      → All IsTokenChar (c ∷ a)
      → to_lower unicode_lower (c ∷ a) ≡ c ∷ a
      → IsWritable value
      → Stops rest
      → consume_media_param unicode_lower
          (b';' ∷ b' ' ∷ (c ∷ (a ++ (b'=' ∷ (written value ++ rest)))))
        ≡ (c ∷ a, value, rest)
  unfolding consume_media_param has_prefix
  consume_name c a value rest t e w k =
      let tail = b'=' ∷ (written value ++ rest) in
      rw
        (
          trim_semicolon (b' ' ∷ (c ∷ (a ++ tail))),
          trim_name (c ∷ a) tail (cons-ne-nil c a) t,
          consume_token-append (c ∷ a) tail t equals_stops,
          e,
          trim_equals (written value ++ rest),
        )
        (consume_param_value-written _ (c ∷ a) value rest w k)

  lower_lower :
      (a : Bytes)
      → All IsTokenChar a
      → to_lower unicode_lower (map lower_ascii a) ≡ map lower_ascii a
  lower_lower a t =
      to_lower_ascii unicode_lower _ (token-IsAscii _ (lower_token a t)) ∙ map_lower_idem a

  pub consume_media_param_text :
      (a value rest : Bytes)
      → a ≢ []
      → All IsTokenChar a
      → IsWritable value
      → Stops rest
      → consume_media_param unicode_lower (param_text a value ++ rest)
        ≡ (map lower_ascii a, value, rest)
  consume_media_param_text [] value rest ne t w k = absurd (ne refl)
  consume_media_param_text (c ∷ a) value rest ne t w k = rw append_assoc (
      consume_name (lower_ascii c) (map lower_ascii a) value rest (lower_token (c ∷ a) t)
        (lower_lower (c ∷ a) t) w k)
