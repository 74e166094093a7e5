-- ===== src/TypeTable.antt =====
-- type.go: the tables of types and extensions. The locks are left out: an operation runs alone. A
-- Go map is an association list, in an order in which `range` visits it; a panic is `none`.
pub mod Files
pub mod Lookup
pub mod Invariant
pub mod Start
pub mod Registry
pub mod Charset
use mime.Base.Bytes
use mime.Base.Dict
use mime.MediaType.Format
use mime.MediaType.Parse
use mime.Base.Array.{◌>>=◌}
use mime.Base.{
  ℕ, ◌+◌, List, [], ◌∷◌, ◌++◌, Bool, true, false, not, ◌&&◌, ◌||◌, Option, none, some, ltb, within,
  if◌then◌else◌, ◌≡◌, refl,
}
use mime.Base.Bytes.{Bytes, codes, equal, has_prefix}
use mime.Base.Dict.{lookup, insert}
use mime.MediaType.Errors.{MediaError, GoError}
use mime.MediaType.Format.{format_media_type, or_empty}
use mime.MediaType.Parse.{Params, Parsed, parse_media_type}
use mime.Runes.Strings.{to_lower}

-- `map[string]string`
abbrev pub Types : Type 0
Types = List (Bytes × Bytes)

-- `map[string][]string`
abbrev pub Extensions : Type 0
Extensions = List (Bytes × List Bytes)

-- the variables `mimeTypes`, `mimeTypesLower` and `extensions`
pub record Tables : Type 0 where
  pub types : Types
  pub types_lower : Types
  pub extensions : Extensions

-- the value of a missing key
abbrev pub or_no_list : Option (List Bytes) → List Bytes
or_no_list none = []
or_no_list (some s) = s

abbrev pub is_nil : Bytes → Bool
is_nil [] = true
is_nil (_ ∷ _) = false

-- `builtinTypesLower`
abbrev pub builtin_types_lower : Types
builtin_types_lower =
    (codes ".css", codes "text/css; charset=utf-8")
    ∷ (codes ".gif", codes "image/gif")
    ∷ (codes ".htm", codes "text/html; charset=utf-8")
    ∷ (codes ".html", codes "text/html; charset=utf-8")
    ∷ (codes ".jpg", codes "image/jpeg")
    ∷ (codes ".js", codes "application/x-javascript")
    ∷ (codes ".pdf", codes "application/pdf")
    ∷ (codes ".png", codes "image/png")
    ∷ (codes ".svg", codes "image/svg+xml")
    ∷ (codes ".xml", codes "text/xml; charset=utf-8")
    ∷ []

-- the test for an extension that is in the list already
unfoldable pub member : Bytes → List Bytes → Bool
member e [] = false
member e (v ∷ s) = equal v e || member e s

-- the fast path of `TypeByExtension`: `none` where a byte is not ASCII
abbrev pub cons_lower : ℕ → Option Bytes → Option Bytes
cons_lower c none = none
cons_lower c (some lower) = some ((if within b'A' b'Z' c then c + 32 else c) ∷ lower)

unfoldable pub lower_ext : Bytes → Option Bytes
lower_ext [] = some []
lower_ext (c ∷ ext) = let lower = lower_ext ext in if ltb c 0x80 then cons_lower c lower else none

module _ (unicode_lower : ℕ → ℕ) where
  -- `clone`
  unfoldable pub clone : Types → Option Types
  clone [] = some []
  clone ((k, v) ∷ m) =
      clone m >>= λ m2. if equal (to_lower unicode_lower k) k then some ((k, v) ∷ m2) else none

  -- an error is a panic
  abbrev pub unless : Option GoError → Extensions → Option Extensions
  unless (some e) m2 = none
  unless none m2 = some m2

  -- a round of the loop of `invert`
  unfoldable pub invert_one : Bytes → Option Parsed → Extensions → Option Extensions
  invert_one k none m2 = none
  invert_one k (some p) m2 =
      unless p.error (insert p.media_type (or_no_list (lookup p.media_type m2) ++ (k ∷ [])) m2)

  unfoldable pub invert_onto : Types → Extensions → Option Extensions
  invert_onto [] m2 = some m2
  invert_onto ((k, v) ∷ m) m2 =
      invert_one k (parse_media_type unicode_lower v) m2 >>= λ m3. invert_onto m m3

  -- `invert`
  unfoldable pub invert : Types → Option Extensions
  invert m = invert_onto m []

  -- `setMimeTypes`, where `none` is a nil map
  unfoldable pub set_mime_types : Option Types → Option Types → Option Tables
  set_mime_types none mixed = none
  set_mime_types (some lower) none = none
  set_mime_types (some lower) (some mixed) =
      invert lower >>= λ e. some (record { types = mixed; types_lower = lower; extensions = e })

  -- `TypeByExtension`, when the tables are there
  unfoldable pub type_by_extension : Bytes → Tables → Bytes
  type_by_extension ext tb =
      let v = or_empty (lookup ext tb.types) in
      let slow = or_empty (lookup (to_lower unicode_lower ext) tb.types_lower) in
      let lowered : Bytes = elim (lower_ext ext) [
        | none ↦ slow
        | some lower ↦ or_empty (lookup lower tb.types_lower)
      ] in
      if is_nil v then lowered else v

  abbrev pub answer :
      Option GoError → Option (List Bytes) → Option (Option (List Bytes) × Option GoError)
  answer (some e) exts = some (none, some e)
  answer none exts = some (exts, none)

  -- `ExtensionsByType`: the extensions, where `none` is nil, and the error
  unfoldable pub extensions_of :
      Option Parsed → Tables → Option (Option (List Bytes) × Option GoError)
  extensions_of none tb = none
  extensions_of (some p) tb = answer p.error (lookup p.media_type tb.extensions)

  abbrev pub extensions_by_type : Bytes → Tables → Option (Option (List Bytes) × Option GoError)
  extensions_by_type typ tb = extensions_of (parse_media_type unicode_lower typ) tb

  -- `param["charset"] == ""`, also on a nil map
  abbrev pub lacks_charset : Option Params → Bool
  lacks_charset none = true
  lacks_charset (some m) = is_nil (or_empty (lookup (codes "charset") m))

  -- the type with the charset that a text type gets; an assignment to a nil map is a panic
  unfoldable pub with_charset : Bytes → Option Params → Option Bytes
  with_charset typ params =
      let formatted : Option Bytes = elim params [
        | none ↦ none
        | some m ↦
            some (format_media_type unicode_lower typ (insert (codes "charset") (codes "utf-8") m))
      ] in
      if has_prefix typ (codes "text/") && lacks_charset params then formatted else some typ

  -- the end of `setExtensionType`
  unfoldable pub put_type : Bytes → Bytes → Bytes → Tables → Tables
  put_type ext typ just_type tb =
      let lower = to_lower unicode_lower ext in
      let known = or_no_list (lookup just_type tb.extensions) in
      record {
        types = insert ext typ tb.types;
        types_lower = insert lower typ tb.types_lower;
        extensions =
            if member lower known
            then tb.extensions
            else insert just_type (known ++ (lower ∷ [])) tb.extensions;
      }

  -- `setExtensionType` behind the parse, with its error and the type that is stored
  abbrev pub set_checked :
      Option GoError → Option Bytes → Bytes → Bytes → Tables → Option (Tables × Option GoError)
  set_checked (some e) t ext just_type tb = some (tb, some e)
  set_checked none none ext just_type tb = none
  set_checked none (some t) ext just_type tb = some (put_type ext t just_type tb, none)

  unfoldable pub set_parsed :
      Bytes → Bytes → Option Parsed → Tables → Option (Tables × Option GoError)
  set_parsed ext typ none tb = none
  set_parsed ext typ (some p) tb =
      set_checked p.error (with_charset typ p.params) ext p.media_type tb

  -- `setExtensionType`
  abbrev pub set_extension_type : Bytes → Bytes → Tables → Option (Tables × Option GoError)
  set_extension_type ext typ tb = set_parsed ext typ (parse_media_type unicode_lower typ) tb

-- unfolds what a test of this file computes with
unfoldable pub computes : Unit {0}
unfolding member lower_ext clone invert_one invert_onto invert set_mime_types type_by_extension
    extensions_of with_charset put_type set_parsed Dict.computes Format.computes Parse.computes
computes = tt

abbrev builtin : Option Tables
builtin = set_mime_types (λ r. r) (some builtin_types_lower) (clone (λ r. r) builtin_types_lower)

abbrev type_after : Bytes → Bytes → Option Bytes
type_after ext typ = builtin >>= λ tb.
    set_extension_type (λ r. r) ext typ tb >>= λ r. some (type_by_extension (λ r. r) ext r.0)

type_text :
    ((builtin >>= λ tb. some (type_by_extension (λ r. r) (codes ".PNG") tb))
      ≡ some (codes "image/png"))
    × ((builtin >>= λ tb. extensions_by_type (λ r. r) (codes "text/html") tb)
        ≡ some (some (codes ".htm" ∷ codes ".html" ∷ []), none))
    × (type_after (codes ".T") (codes "text/plain") ≡ some (codes "text/plain; charset=utf-8"))
unfolding computes
type_text = (refl, refl, refl)

-- A text type with a parameter and no charset is stored as the empty type: `FormatMediaType` gets
-- the type together with its parameters.
lost_type_text : type_after (codes ".t") (codes "text/plain; format=flowed") ≡ some []
unfolding computes
lost_type_text = refl
