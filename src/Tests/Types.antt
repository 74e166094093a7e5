-- ===== src/Tests/Types.antt =====
-- type.go and type_unix.go
use mime.Base.{[], ◌∷◌, none, some, false, ◌≡◌, refl, All}
use mime.Base.Bytes.{codes}
use mime.Grammar
use mime.Grammar.Tokens.{IsTokenChar, is_token_sound}
use mime.TypeTable.{Tables, type_by_extension, set_extension_type}
use mime.TypeTable.Files.{FileSystem, Registry, init_mime}
use mime.TypeTable.Lookup.{Sets, type_by_extension_lem, first_value, set_extension_type-Sets}
use mime.TypeTable.Invariant.{Keeps, set_extension_type-IsValid}
use mime.TypeTable.Start.{builtin, builtin-IsValid}
use mime.TypeTable.Registry.{Valid, RegistryIsValid, init_mime-Valid, add_all, add_all-IsValid}
use mime.TypeTable.Charset.{set_extension_type_text}
use mime.Base.Dict.{lookup}
use mime.Runes.Strings.{to_lower}

abbrev tables : Tables
tables = builtin (λ r. r)

-- a system with one file of two lines
abbrev one_file : FileSystem
one_file name = some (codes "# types" ∷ codes "a/b x Y #z" ∷ [], false)

type_by_extension_example :
    type_by_extension (λ r. r) (codes ".PNG") tables
    ≡ first_value
        (lookup (codes ".PNG") tables.types)
        (lookup (to_lower (λ r. r) (codes ".PNG")) tables.types_lower)
type_by_extension_example = type_by_extension_lem (λ r. r) (codes ".PNG") tables

set_extension_type-Sets_example :
    Sets
      (λ r. r)
      (codes ".T")
      (codes "a/b")
      tables
      (set_extension_type (λ r. r) (codes ".T") (codes "a/b") tables)
set_extension_type-Sets_example = set_extension_type-Sets (λ r. r) (codes ".T") (codes "a/b") tables

set_extension_type-IsValid_example :
    Keeps (λ r. r) (set_extension_type (λ r. r) (codes ".T") (codes "image/png") tables)
set_extension_type-IsValid_example =
    set_extension_type-IsValid (λ r. r) (codes ".T") (codes "image/png") tables
      (builtin-IsValid (λ r. r))

init_mime-Valid_example : Valid (λ r. r) (init_mime (λ r. r) one_file)
init_mime-Valid_example = init_mime-Valid (λ r. r) one_file (λ name lines e. cc)

add_all-IsValid_example :
    (after : Registry) × (add_all
        (λ r. r)
        one_file
        ((codes ".T", codes "a/b") ∷ (codes "T", codes "a/b") ∷ [])
        none
      ≡ some after)
    × RegistryIsValid (λ r. r) after
add_all-IsValid_example =
    add_all-IsValid (λ r. r) one_file ((codes ".T", codes "a/b") ∷ (codes "T", codes "a/b") ∷ [])
      none (λ name lines e. cc) tt

plain_token : All IsTokenChar (codes "plain")
unfolding Grammar.computes
plain_token = (is_token_sound (codes "plain") refl).1

set_extension_type_text_example :
    (after : Tables) × (set_extension_type (λ r. r) (codes ".T") (codes "text/plain") tables
      ≡ some (after, none))
    × (type_by_extension (λ r. r) (codes ".T") after ≡ codes "text/plain; charset=utf-8")
set_extension_type_text_example =
    set_extension_type_text (λ r. r) (codes "plain") (λ e. cc) plain_token refl (codes ".T") tables
