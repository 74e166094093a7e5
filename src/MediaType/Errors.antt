-- ===== src/MediaType/Errors.antt =====
-- mediatype.go: `PMTErr`, and the checks of the media type itself.
use mime.Base.Bytes
use mime.MediaType.Consume
use mime.Base.{
  List, [], ◌∷◌, ◌++◌, Bool, true, false, not, Option, none, some, if◌then◌else◌, drop, ◌≡◌, refl,
}
use mime.Base.Bytes.{Bytes, codes, has_prefix}
use mime.MediaType.Consume.{consume_token}

-- the package's error values, and `errors.New("mime: duplicate parameter name")`
pub data MediaError : Type 0 where
  no_media_type no_slash token_slash unexpected_content invalid_param duplicate_param : MediaError

-- `PMTErr`; `bad` says that an error is serious.
pub record PmtErr : Type 0 where
  pub errs : List MediaError
  pub bad : Bool

-- what the code returns as a non-nil `error`
pub data GoError : Type 0 where
  plain : MediaError → GoError
  merged : PmtErr → GoError

abbrev pub no_errors : PmtErr
no_errors = record { errs = []; bad = false }

unfoldable pub add : PmtErr → MediaError → PmtErr
add p e = record p { errs = p.errs ++ e ∷ [] }

unfoldable pub add_unrecover : PmtErr → MediaError → PmtErr
add_unrecover p e = record p { errs = p.errs ++ e ∷ []; bad = true }

-- `IsOkPMTError`, where `none` is nil
unfoldable pub is_ok_pmt_error : Option GoError → Option GoError
is_ok_pmt_error none = none
is_ok_pmt_error (some (plain e)) = some (plain e)
is_ok_pmt_error (some (merged p)) = if not p.bad then none else some (merged p)

abbrev is_nil : Bytes → Bool
is_nil [] = true
is_nil (_ ∷ _) = false

-- `checkMediaTypeDisposition`
unfoldable pub check_media_type_disposition : Bytes → Option MediaError
check_media_type_disposition s =
    let (typ, rest) = consume_token s in
    let (subtype, rest') = consume_token (drop 1 rest) in
    if is_nil typ
    then some no_media_type
    else if is_nil rest
    then none
    else if not (has_prefix rest (codes "/"))
    then some no_slash
    else if is_nil subtype
    then some token_slash
    else if not (is_nil rest')
    then some unexpected_content
    else none

-- `lossyCheckMediaTypeDisposition`: the new `PMTErr`, the media type that is taken, the error
unfoldable pub lossy_check : PmtErr → Bytes → Bytes → PmtErr × Bytes × Option MediaError
lossy_check p s v =
    let (typ, rest) = consume_token s in
    let (subtype, rest') = consume_token (drop 1 rest) in
    if is_nil v
    then (add_unrecover p no_media_type, [], some no_media_type)
    else if is_nil typ
    then (add p no_media_type, codes "unknown", some no_media_type)
    else if is_nil rest
    then (p, typ, none)
    else if not (has_prefix rest (codes "/"))
    then (add p no_slash, typ ++ codes "/unknown", some no_slash)
    else if is_nil subtype
    then (add p token_slash, typ ++ codes "/unknown", some token_slash)
    else if not (is_nil rest')
    then (add p unexpected_content, typ ++ (b'/' ∷ subtype), some unexpected_content)
    else (p, s, none)

-- unfolds what a test of this file computes with
unfoldable pub computes : Unit {0}
unfolding add add_unrecover is_ok_pmt_error check_media_type_disposition lossy_check Bytes.computes
    Consume.computes
computes = tt

lossy_check_text :
    (lossy_check no_errors (codes "form data") (codes "form data; x")
      ≡ (add no_errors no_slash, codes "form/unknown", some no_slash))
    × (lossy_check no_errors (codes "a/b") (codes "a/b") ≡ (no_errors, codes "a/b", none))
unfolding computes
lossy_check_text = (refl, refl)
