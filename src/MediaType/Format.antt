-- ===== src/MediaType/Format.antt =====
-- mediatype.go: `FormatMediaType`. `none` stands for its early returns of the empty string.
use mime.Base.Bytes
use mime.Base.Dict
use mime.Grammar
use mime.Runes.Strings
use mime.Runes
use mathlib.Core.Option
use mime.Base.{
  ℕ, zero, suc, ◌-◌, ◌/◌, ◌%◌, List, [], ◌∷◌, ◌++◌, Bool, true, false, not, ◌||◌, Option, none,
  some, ltb, ◌==◌, if◌then◌else◌, take, drop, ◌≡◌, refl,
}
use mime.Base.Bytes.{Bytes, codes, index_byte}
use mime.Base.Dict.{lookup, keys}
use mime.Grammar.{is_token}
use mime.Runes.Strings.{to_lower}
use mime.Runes.{decode_rune}

-- the order of Go strings: the first byte that differs decides
unfoldable pub string_le : Bytes → Bytes → Bool
string_le [] t = true
string_le (x ∷ s) [] = false
string_le (x ∷ s) (y ∷ t) = if ltb x y then true else if x == y then string_le s t else false

unfoldable pub insert_sorted : Bytes → List Bytes → List Bytes
insert_sorted a [] = a ∷ []
insert_sorted a (b ∷ l) = if string_le a b then a ∷ b ∷ l else b ∷ insert_sorted a l

-- `sort.Strings`
unfoldable pub sort_strings : List Bytes → List Bytes
sort_strings [] = []
sort_strings (a ∷ l) = insert_sorted a (sort_strings l)

-- The loop over a value that is no token. `out` is what the buffer has got, `pending` is
-- `value[offset:index]`, which is written before the next backslash or at the end.
unfoldable pub quote_loop : Bytes → Bytes → ℕ → Bytes → Option Bytes
quote_loop out pending skip [] = some (out ++ pending)
quote_loop out pending (suc skip) (b ∷ s) = quote_loop out (pending ++ b ∷ []) skip s
quote_loop out pending zero (b ∷ s) =
    let (r, width) = decode_rune (b ∷ s) in
    let special = r == b'"' || r == b'\\' in
    let rest =
      quote_loop (if special then out ++ pending ++ b'\\' ∷ [] else out)
        (if special then b ∷ [] else pending ++ b ∷ []) (width - 1) s in
    -- `character&0x80 != 0`
    if r / 0x80 % 2 == 1 then none else rest

-- what one round of the loop over the attributes writes behind `; `
unfoldable pub format_value : Bytes → Option Bytes
format_value value =
    let quoted = Option.map (λ q. b'"' ∷ (q ++ b'"' ∷ [])) (quote_loop [] [] 0 value) in
    if is_token value then some value else quoted

abbrev pub append_to : Bytes → Option Bytes → Option Bytes
append_to out none = none
append_to out (some more) = some (out ++ more)

abbrev pub or_empty : Option Bytes → Bytes
or_empty none = []
or_empty (some v) = v

module _ (unicode_lower : ℕ → ℕ) where
  -- the media type, in lower case
  unfoldable pub format_type : Bytes → Option Bytes
  format_type t = elim (index_byte t b'/') [
    | none ↦ if not (is_token t) then none else some (to_lower unicode_lower t)
    | some slash ↦
        let major = take slash t in
        let sub = drop (suc slash) t in
        if not (is_token major) || not (is_token sub)
        then none
        else some (to_lower unicode_lower major ++ (b'/' ∷ to_lower unicode_lower sub))
  ]

  -- one round of the loop over the attributes
  unfoldable pub format_param : List (Bytes × Bytes) → Bytes → Option Bytes
  format_param param attribute =
      let head = b';' ∷ b' ' ∷ (to_lower unicode_lower attribute ++ b'=' ∷ []) in
      let written = append_to head (format_value (or_empty (lookup attribute param))) in
      if not (is_token attribute) then none else written

  unfoldable pub format_params : List (Bytes × Bytes) → List Bytes → Bytes → Option Bytes
  format_params param [] out = some out
  format_params param (a ∷ attrs) out = elim (append_to out (format_param param a)) [
    | none ↦ none
    | some out' ↦ format_params param attrs out'
  ]

  -- `FormatMediaType`
  unfoldable pub format_media_type : Bytes → List (Bytes × Bytes) → Bytes
  format_media_type t param = elim (format_type t) [
    | none ↦ []
    | some b ↦ or_empty (format_params param (sort_strings (keys param)) b)
  ]

-- unfolds what a test of this file computes with
unfoldable pub computes : Unit {0}
unfolding string_le insert_sorted sort_strings quote_loop format_value format_type format_param
    format_params format_media_type Bytes.computes Dict.computes Grammar.computes Strings.computes
    Runes.computes
computes = tt

format_media_type_text :
    (format_media_type
        (λ r. r)
        (codes "TEXT/html")
        ((codes "charset", codes "utf-8") ∷ (codes "B", codes "a\"b c") ∷ [])
      ≡ codes "text/html; b=\"a\\\"b c\"; charset=utf-8")
    × (format_media_type (λ r. r) (codes "noslash") ((codes "x x", codes "1") ∷ []) ≡ [])
unfolding computes
format_media_type_text = (refl, refl)
