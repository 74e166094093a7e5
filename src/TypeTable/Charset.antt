-- ===== src/TypeTable/Charset.antt =====
-- type.go: the charset that `setExtensionType` gives to a text type.
use mime.Base.{
  ℕ, [], ◌∷◌, ◌++◌, map, none, some, ◌≡◌, ◌≢◌, refl, ap, sym, ◌∙◌, All, arith, append-nil,
}
use mime.Base.Bytes
use mime.Base.Bytes.{Bytes, codes, has_prefix, has_prefix-append}
use mime.Base.Dict
use mime.Grammar
use mime.Grammar.Tokens.{IsTokenChar, is_token_sound}
use mime.MediaType.Format
use mime.MediaType.Format.{format_media_type}
use mime.MediaType.Parse.{Params, Parsed, parse_media_type}
use mime.MediaType.RoundTrip.{IsParamOf, parse-format, format_media_type_text}
use mime.MediaType.TypeText.{IsType, slashed}
use mime.Runes.Strings.{lower_ascii}
use mime.TypeTable.{
  Tables, with_charset, set_checked, set_parsed, set_extension_type, type_by_extension, put_type,
}
use mime.TypeTable.Lookup.{read_put_self}

abbrev text_type : Bytes → Bytes
text_type sub = codes "text/" ++ sub

abbrev utf8_param : Params
utf8_param = (codes "charset", codes "utf-8") ∷ []

text-IsType : (sub : Bytes) → sub ≢ [] → All IsTokenChar sub → IsType (text_type sub)
text-IsType sub n h =
    slashed (codes "text") sub (λ e. cc)
      (unfold Grammar.computes in (is_token_sound (codes "text") refl).1) n h

charset_token : All IsTokenChar (codes "charset")
unfolding Grammar.computes
charset_token = (is_token_sound (codes "charset") refl).1

utf8-IsParamOf : All (IsParamOf utf8_param) (Dict.keys utf8_param)
unfolding Dict.computes
utf8-IsParamOf = (((λ e. cc, charset_token, omega arith), (λ e. cc, omega arith)), tt)

module _ (unicode_lower : ℕ → ℕ) (sub : Bytes) (n : sub ≢ []) (h : All IsTokenChar sub)
    (low : map lower_ascii sub ≡ sub) where
  lower_type : map lower_ascii (text_type sub) ≡ text_type sub
  lower_type = ap (λ s. codes "text/" ++ s) low

  text_parsed : Parsed
  text_parsed = record { media_type = text_type sub; params = some []; error = none }

  plain : format_media_type unicode_lower (text_type sub) [] ≡ text_type sub
  unfolding Format.computes
  plain =
      format_media_type_text unicode_lower [] (text-IsType sub n h) tt
      ∙ append-nil (map lower_ascii (text_type sub))
      ∙ lower_type

  parsed : parse_media_type unicode_lower (text_type sub) ≡ some text_parsed
  unfolding text_parsed Format.computes
  parsed =
      ap (parse_media_type unicode_lower) (sym plain)
      ∙ parse-format unicode_lower [] (text-IsType sub n h) tt tt
      ∙ ap (λ t. some (record { media_type = t; params = some []; error = none })) lower_type

  formatted :
      format_media_type unicode_lower (text_type sub) utf8_param
      ≡ text_type sub ++ codes "; charset=utf-8"
  formatted =
      format_media_type_text unicode_lower utf8_param (text-IsType sub n h) utf8-IsParamOf
      ∙ (unfold Format.computes in ap (λ t. t ++ codes "; charset=utf-8") lower_type)

  with_utf8 :
      with_charset unicode_lower (text_type sub) (some [])
      ≡ some (text_type sub ++ codes "; charset=utf-8")
  unfolding with_charset
  with_utf8 = (unfold Dict.computes in unfold Bytes.computes in ap some formatted)

  -- For a text type with no parameters, in lower case: `setExtensionType` gives no error, and the type
  -- that `TypeByExtension` reads then is the one given with the charset UTF-8.
  pub set_extension_type_text :
      (ext : Bytes) (tb : Tables)
      → (after : Tables) × (set_extension_type unicode_lower ext (text_type sub) tb
          ≡ some (after, none))
        × (type_by_extension unicode_lower ext after ≡ text_type sub ++ codes "; charset=utf-8")
  unfolding set_parsed text_parsed
  set_extension_type_text ext tb =
      let t = text_type sub ++ codes "; charset=utf-8" in
      (
        put_type unicode_lower ext t (text_type sub) tb,
        ap (λ o. set_parsed unicode_lower ext (text_type sub) o tb) parsed
            ∙ ap (λ t. set_checked unicode_lower none t ext (text_type sub) tb) with_utf8,
        read_put_self unicode_lower ext t (text_type sub) tb,
      )
