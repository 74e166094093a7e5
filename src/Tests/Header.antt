-- ===== src/Tests/Header.antt =====
-- grammer.go and mediatype.go
use mime.Base.{[], ◌∷◌, ◌++◌, true, some, none, All, ◌≡◌, ◌≢◌, ◌↔◌, refl, arith}
use mathlib.Core.List.{cons-ne-nil}
use mathlib.Core.List.Permᴰ
use mime.MediaType.Order.{IsMap, format_media_type-perm}
use mime.Base.Bytes.{Bytes, codes}
use mime.Base.Dict
use mime.Base.Dict.{keys}
use mime.Grammar
use mime.Grammar.Tokens.{IsTokenChar, Stops, is_token_sound, is_token_iff}
use mime.Grammar.{is_token}
use mime.MediaType.Consume.{consume_token}
use mime.MediaType.Format.{format_media_type, sort_strings}
use mime.MediaType.ParamLoop.{Distinct}
use mime.MediaType.Parse.{Params, parse_media_type}
use mime.MediaType.RoundTrip.{IsParamOf, read_back, lower_type, parse-format}
use mime.MediaType.Errors.{check_media_type_disposition, lossy_check, no_errors}
use mime.MediaType.Repair.{Repairs, lossy_check-Repairs, check_media_type_disposition_iff}
use mime.MediaType.Tokens.{consume_token_lem}
use mime.MediaType.Total.{Returns, parse_media_type-Returns}
use mime.MediaType.TypeText.{IsType, slashed}

abbrev header_type : Bytes
header_type = codes "TEXT/html"

abbrev header_params : Params
header_params = (codes "charset", codes "utf-8") ∷ (codes "B", codes "a\"b c") ∷ []

text_token : All IsTokenChar (codes "TEXT")
unfolding Grammar.computes
text_token = (is_token_sound (codes "TEXT") refl).1

html_token : All IsTokenChar (codes "html")
unfolding Grammar.computes
html_token = (is_token_sound (codes "html") refl).1

header_type-IsType : IsType header_type
header_type-IsType =
    slashed (codes "TEXT") (codes "html") (cons-ne-nil _ _) text_token (cons-ne-nil _ _) html_token

charset_token : All IsTokenChar (codes "charset")
unfolding Grammar.computes
charset_token = (is_token_sound (codes "charset") refl).1

b_token : All IsTokenChar (codes "B")
unfolding Grammar.computes
b_token = (is_token_sound (codes "B") refl).1

header_params-IsParamOf : All (IsParamOf header_params) (keys header_params)
unfolding Dict.computes
header_params-IsParamOf = (
  ((cons-ne-nil _ _, charset_token, omega arith), (cons-ne-nil _ _, omega arith)),
  (((cons-ne-nil _ _, b_token, omega arith), (cons-ne-nil _ _, omega arith)), tt),
)

header_params-Distinct : Distinct (keys header_params)
header_params-Distinct = ((cc, tt), (tt, tt))

parse-format_example :
    parse_media_type (λ r. r) (format_media_type (λ r. r) header_type header_params)
    ≡ some (record {
      media_type = lower_type header_type;
      params = some (read_back header_params (sort_strings (keys header_params)));
      error = none;
    })
parse-format_example =
    parse-format (λ r. r) header_params header_type-IsType header_params-IsParamOf
      header_params-Distinct

header_params-IsMap : IsMap header_params
unfolding Dict.computes
header_params-IsMap = (refl, (refl, tt))

format_media_type-perm_example :
    format_media_type (λ r. r) header_type header_params
    ≡ format_media_type
        (λ r. r)
        header_type
        ((codes "B", codes "a\"b c") ∷ (codes "charset", codes "utf-8") ∷ [])
format_media_type-perm_example =
    format_media_type-perm (λ r. r) header_type header_params _ header_params-IsMap
      ∣ Permᴰ.swap refl refl ∣₁

consume_token_example :
    ((consume_token (codes "text/html")).0 ++ (consume_token (codes "text/html")).1
      ≡ codes "text/html")
    × All IsTokenChar (consume_token (codes "text/html")).0
    × Stops (consume_token (codes "text/html")).1
consume_token_example = consume_token_lem (codes "text/html")

is_token_example :
    (is_token (codes "a b") ≡ true) ↔ ((codes "a b" ≢ []) × All IsTokenChar (codes "a b"))
is_token_example = is_token_iff (codes "a b")

parse_media_type-Returns_example :
    Returns (parse_media_type (λ r. r) (codes "a b; name=\"foo\"; Key*0=a; x"))
parse_media_type-Returns_example =
    parse_media_type-Returns (λ r. r) (codes "a b; name=\"foo\"; Key*0=a; x")

lossy_check-Repairs_example :
    Repairs no_errors
      (codes "form data")
      (check_media_type_disposition (codes "form data"))
      (lossy_check no_errors (codes "form data") (codes "form data; x"))
lossy_check-Repairs_example =
    lossy_check-Repairs no_errors (codes "form data") b'f' (codes "orm data; x")

check_media_type_disposition_example :
    (check_media_type_disposition (codes "text/html") ≡ none) ↔ IsType (codes "text/html")
check_media_type_disposition_example = check_media_type_disposition_iff (codes "text/html")
