-- ===== src/MediaType/Consume.antt =====
-- mediatype.go: the readers of a token, of a value and of one parameter.
use mime.Base.Bytes
use mime.Grammar
use mime.Runes.Strings
use mime.Runes
use mime.Base.{
  ℕ, zero, suc, ◌-◌, [], ◌∷◌, ◌++◌, Bool, true, false, not, ◌&&◌, Option, none, some, ◌==◌,
  if◌then◌else◌, take, drop, ◌≡◌, refl,
}
use mime.Base.Bytes.{Bytes, codes, has_prefix}
use mime.Grammar.{is_not_token_char}
use mime.Runes.Strings.{index_func, trim_left, to_lower}
use mime.Runes.{decode_rune, encode_rune}

-- `consumeToken`
unfoldable pub consume_token : Bytes → Bytes × Bytes
consume_token v = elim (index_func is_not_token_char v) [
  | none ↦ (v, [])
  | some zero ↦ ([], v)
  | some (suc n) ↦ (take (suc n) v, drop (suc n) v)
]

-- The loop of `consumeValue` behind the opening quote; `literal` is `nextIsLiteral`. It gives the
-- buffer and what stands behind the closing quote.
unfoldable pub consume_quoted : Bytes → Bool → ℕ → Bytes → Option (Bytes × Bytes)
consume_quoted buffer literal skip [] = none
consume_quoted buffer literal (suc skip) (b ∷ s) = consume_quoted buffer literal skip s
consume_quoted buffer literal zero (b ∷ s) =
    let (r, width) = decode_rune (b ∷ s) in
    let copied = consume_quoted (buffer ++ encode_rune r) false (width - 1) s in
    let escaped = consume_quoted buffer true (width - 1) s in
    if literal
    then copied
    else if r == b'"'
    then some (buffer, s)
    else if r == b'\\'
    then escaped
    else if not (r == b'\r') && not (r == b'\n')
    then copied
    else none

-- `consumeValue`
unfoldable pub consume_value : Bytes → Bytes × Bytes
consume_value [] = ([], [])
consume_value (b ∷ rest) =
    if not (b == b'"')
    then consume_token (b ∷ rest)
    else elim (consume_quoted [] false 0 rest) [ none ↦ ([], b ∷ rest) | some found ↦ found ]

abbrev pub is_empty : Bytes → Bool
is_empty [] = true
is_empty (_ ∷ _) = false

-- the part of `consumeMediaParam` behind the name; `v` is the whole input
unfoldable pub consume_param_value : Bytes → Bytes → Bytes → Bytes × Bytes × Bytes
consume_param_value v param rest =
    let (value, rest') = consume_value (trim_left (drop 1 rest)) in
    if not (has_prefix rest (codes "="))
    then ([], [], v)
    else if is_empty value
    then ([], [], v)
    else (param, value, rest')

module _ (unicode_lower : ℕ → ℕ) where
  -- `consumeMediaParam`
  unfoldable pub consume_media_param : Bytes → Bytes × Bytes × Bytes
  consume_media_param v =
      let rest = trim_left v in
      let (token, rest') = consume_token (trim_left (drop 1 rest)) in
      let param = to_lower unicode_lower token in
      if not (has_prefix rest (codes ";"))
      then ([], [], v)
      else if is_empty param
      then ([], [], v)
      else consume_param_value v param (trim_left rest')

-- unfolds what a test of this file computes with
unfoldable pub computes : Unit {0}
unfolding consume_token consume_quoted consume_value consume_param_value consume_media_param
    Bytes.computes Grammar.computes Strings.computes Runes.computes
computes = tt

consume_value_text :
    (consume_value (codes "\"a\\\"b\" ;x") ≡ (codes "a\"b", codes " ;x"))
    × (consume_value (codes "foo bar") ≡ (codes "foo", codes " bar"))
    × (consume_value (codes "\"unterminated") ≡ ([], codes "\"unterminated"))
unfolding computes
consume_value_text = (refl, refl, refl)

consume_media_param_text :
    (consume_media_param (λ r. r) (codes " ; FOO = bar ; baz=2")
      ≡ (codes "foo", codes "bar", codes " ; baz=2"))
    × (consume_media_param (λ r. r) (codes ";foo=") ≡ ([], [], codes ";foo="))
unfolding computes
consume_media_param_text = (refl, refl)
